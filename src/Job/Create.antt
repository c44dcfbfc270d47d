-- ===== src/Job/Create.antt =====
-- `_create_job`: what a job holds and what is put in the storage for it. Times and sizes kept as
-- metadata are left out, and so are the files that a runtime with the function in it is built from.
use lithops.Base.{
  ℕ, suc, ◌-◌, ◌*◌, ◌^◌, Bool, false, not, ◌&&◌, ◌||◌, Option, none, some, List, [], ◌∷◌, Text,
  codes, map, length, sum, ltb, leb, ◌==◌, if◌then◌else◌,
}
use lithops.Payload.{Last, agg_data, create_data_key, create_func_key}
use lithops.Job.Modules.{IncludeConfig, has, include_config, include_set, exclude_set}

pub data ℤ : Type 0 where
  pos negsuc : ℕ → ℤ

abbrev pub minus : ℕ → ℕ → ℤ
minus m n = if leb n m then pos (m - n) else negsuc (n - suc m)

-- The mode, with the time after which its runtime or its machine is stopped.
pub data Mode : Type 0 where
  serverless : (runtime_timeout : ℕ) → Mode
  standalone : (hard_dismantle_timeout : ℕ) → Mode
  localhost : Mode

pub record Config : Type 0 where
  pub mode : Mode
  pub chunksize : ℕ
  pub execution_timeout : ℕ
  pub exclude_modules : Option (List Text)
  pub include_modules : IncludeConfig
  -- Missing, None, or a number of MiB.
  pub data_limit : Option (Option ℕ)
  pub runtime_include_function : Bool
  pub batch : Bool

-- The serializer, `create_module_data` with `pickle.dumps`, and the digest are not lithops's own.
-- F is the type of functions, D of the elements of the iterdata.
pub record Libraries (F D : Type 0) : Type 0 where
  pub serialize : F → List D → Option (List Text) → List Text → Text × List Text × List Text
  pub dumps : Text → List Text → Text
  pub md5 : Text → Text

pub record Request (F D : Type 0) : Type 0 where
  pub executor_id : Text
  pub job_id : Text
  pub func : F
  pub iterdata : List D
  pub include_modules : Option (List Text)
  pub exclude_modules : Option (List Text)
  pub execution_timeout : Option ℕ
  pub chunksize : Option ℕ

pub record Job : Type 0 where
  pub chunksize : ℕ
  pub execution_timeout : ℤ
  pub total_calls : ℕ
  pub func_key : Text
  pub data_key : Option Text
  pub data_byte_ranges : Option (List (ℕ × Last))
  pub data_byte_strs : Option (List Text)

-- The storage, last object first, and FUNCTION_CACHE.
pub record World : Type 0 where
  pub stored : List (Text × Text)
  pub function_cache : List Text

pub data Created : Type 0 where
  value_error data_exceeded : Created
  created : Job → World → Created

-- `x or y` of numbers
abbrev pub or_else : Option ℕ → ℕ → ℕ
or_else none n = n
or_else (some m) n = if m == 0 then n else m

unfoldable pub limit_timeout : Mode → ℕ → ℤ
limit_timeout (serverless runtime_timeout) t =
    if leb runtime_timeout t then minus runtime_timeout 5 else pos t
limit_timeout (standalone runtime_timeout) t =
    if leb runtime_timeout t then minus runtime_timeout 10 else pos t
limit_timeout localhost t = pos t

-- MAX_AGG_DATA_SIZE and MAX_DATA_IN_PAYLOAD
abbrev pub max_agg_data_size : ℕ
max_agg_data_size = 4

abbrev pub max_data_in_payload : ℕ
max_data_in_payload = 8192

unfoldable pub exceeds : Option (Option ℕ) → ℕ → Bool
exceeds none size = ltb (max_agg_data_size * 1024 ^ 2) size
exceeds (some none) size = false
exceeds (some (some n)) size = not (n == 0) && ltb (n * 1024 ^ 2) size

-- Is any element, times the chunk size, too long for the payload?
unfoldable pub upload_data : ℕ → List Text → Bool
upload_data chunksize [] = false
upload_data chunksize (s ∷ data_strs) =
    ltb max_data_in_payload (length s * chunksize) || upload_data chunksize data_strs

abbrev pub put : Text → Text → World → World
put key body w = record w { stored = (key, body) ∷ w.stored }

-- Upload of the function and its modules, unless it is in the cache.
unfoldable pub upload_function : Text → Text → World → World
upload_function func_key func_module_str w =
    if has func_key w.function_cache
    then w
    else record (put func_key func_module_str w) { function_cache = func_key ∷ w.function_cache }

module _ {F D : Type 0} (libs : Libraries F D) where
  abbrev pub func_key_of : Config → Text → Text → Text
  func_key_of config executor_id func_module_str =
      if config.runtime_include_function
      then codes "func.pickle"
      else create_func_key executor_id (libs.md5 func_module_str)

  -- From where the function and the data are serialized.
  unfoldable pub store_job : Config → Request F D → Text → List Text → World → Job × World
  unfolding upload_data upload_function limit_timeout
  store_job config r func_module_str data_strs w =
      let chunksize = or_else r.chunksize config.chunksize in
      let func_key = func_key_of config r.executor_id func_module_str in
      let data_key = create_data_key r.executor_id r.job_id in
      let w' =
        if config.runtime_include_function then w else upload_function func_key func_module_str w in
      let (data_bytes, data_byte_ranges) = agg_data data_strs in
      let up = upload_data chunksize data_strs || config.batch in
      let job : Job = record {
        chunksize = chunksize;
        execution_timeout =
            limit_timeout config.mode (or_else r.execution_timeout config.execution_timeout);
        total_calls = length r.iterdata;
        func_key = func_key;
        data_key = if up then some data_key else none;
        data_byte_ranges = if up then some data_byte_ranges else none;
        data_byte_strs = if up then none else some data_strs;
      } in
      (job, if up then put data_key data_bytes w' else w')

  unfoldable pub create_job : Config → Request F D → World → Created
  unfolding include_config include_set exclude_set exceeds store_job
  create_job config r w = elim (include_config config.include_modules) [
    | none ↦ value_error
    | some included ↦
        let inc_modules = include_set included r.include_modules in
        let exc_modules = exclude_set config.exclude_modules r.exclude_modules in
        let (func_str, data_strs, mod_paths) =
          libs.serialize r.func r.iterdata inc_modules exc_modules in
        if exceeds config.data_limit (sum (map length data_strs))
        then data_exceeded
        else (let (job, w') = store_job config r (libs.dumps func_str mod_paths) data_strs w in
            created job w')
  ]

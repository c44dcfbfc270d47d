-- ===== src/Invoker/Loads.antt =====
-- What the worker of some consecutive calls loads.
use lithops.Base.{
  ℕ, zero, suc, ◌+◌, ◌<◌, ◌≤◌, ◌≡◌, refl, sym, ap, ◌∙◌, ◌||◌, Option, none, some, List, [], ◌∷◌,
  map, Text, get_elem?, take, drop, length, Bool-cases, inl, inr, arith,
}
use lithops.Executor.{int}
use lithops.Executor.Names.{int-zfill}
use lithops.Job.{Config, Libraries, Request, World, Job, store_job, upload_data, or_else}
use lithops.Payload.{create_data_key, Last, agg_data, ranges, get_function_data, ranges_from}
use lithops.Payload.Ranges.{NonEmpty, AnswersRanges, get_function_data-agg_data}
use lithops.Invoker.Queue.{range_from}
use lithops.Invoker.Runs.{call_id_of}
use lithops.Invoker.Tasks.{pick, task_payload, worker_data}

pub int-call_id_of : (i : ℕ) → int (call_id_of i) ≡ i
unfolding call_id_of
int-call_id_of i = int-zfill 5 i

module _ {A : Type 0} where
  pub drop-get_elem? :
      (xs : List A) (i : ℕ)
      → i < length xs
      → (x : A) × (get_elem? xs i ≡ some x) × (drop i xs ≡ x ∷ drop (suc i) xs)
  drop-get_elem? [] i lt = absurd (omega arith)
  drop-get_elem? (x ∷ xs) zero lt = (x, refl, refl)
  drop-get_elem? (x ∷ xs) (suc i) lt = drop-get_elem? xs i (omega arith)

  pick-cons :
      (xs : List A) (id : Text) (ids : List Text) {x : A} {ys : List A}
      → get_elem? xs (int id) ≡ some x
      → pick xs ids ≡ some ys
      → pick xs (id ∷ ids) ≡ some (x ∷ ys)
  pick-cons xs id ids here rest = rw (here, pick, rest) refl

  -- Consecutive calls pick consecutive elements.
  pick_lem :
      (xs : List A) (i n : ℕ)
      → i + n ≤ length xs
      → pick xs (map call_id_of (range_from i n)) ≡ some (take n (drop i xs))
  pick_lem xs i zero le = refl
  pick_lem xs i (suc n) le =
      let (x, here, next) = drop-get_elem? xs i (omega arith) in
      let rest = pick_lem xs (suc i) n (omega arith) in
      let first = ap (get_elem? xs) (int-call_id_of i) ∙ here in
      pick-cons xs (call_id_of i) (map call_id_of (range_from (suc i) n)) first rest
      ∙ ap (λ l. some (take (suc n) l)) (sym next)

pub length-ranges_from :
    (pos : ℕ) (data_strs : List Text) → length (ranges_from pos data_strs) ≡ length data_strs
unfolding ranges_from
length-ranges_from pos [] = refl
length-ranges_from pos (d ∷ data_strs) = ap suc (length-ranges_from (pos + length d) data_strs)

module _ (get_data : Option (ℕ × Last) → Text) (job : Job) (calls : List ℕ) where
  worker_data-ranges :
      {key : Text} {dbrs mine : List (ℕ × Last)}
      → job.data_key ≡ some key
      → job.data_byte_ranges ≡ some dbrs
      → pick dbrs (map call_id_of calls) ≡ some mine
      → worker_data get_data job calls ≡ get_function_data get_data (ranges mine)
  unfolding worker_data task_payload
  worker_data-ranges k d m = rw (k, worker_data, task_payload, d, m) refl

  worker_data-strings :
      {strs mine : List Text}
      → job.data_key ≡ none
      → job.data_byte_strs ≡ some strs
      → pick strs (map call_id_of calls) ≡ some mine
      → worker_data get_data job calls ≡ some mine
  unfolding worker_data task_payload get_function_data
  worker_data-strings k d m = rw (k, worker_data, task_payload, d, m) refl

-- A worker of consecutive calls loads the data of these.
pub worker_data_lem :
    {F D : Type 0} (libs : Libraries F D) (config : Config) (r : Request F D)
    (func_module_str : Text) (data_strs : List Text) (w : World)
    (get_data : Option (ℕ × Last) → Text) (i n : ℕ)
    → NonEmpty data_strs
    → AnswersRanges get_data (agg_data data_strs).0
    → 0 < n
    → i + n ≤ length data_strs
    → worker_data get_data (store_job libs config r func_module_str data_strs w).0 (range_from i n)
      ≡ some (take n (drop i data_strs))
unfolding store_job worker_data task_payload agg_data get_function_data
worker_data_lem libs config r func_module_str data_strs w get_data i n full answers p le =
    let cz = or_else r.chunksize config.chunksize in
    let dbrs = ranges_from 0 data_strs in
    let mine = pick_lem dbrs i n (omega (arith, length-ranges_from 0 data_strs)) in
    let own = pick_lem data_strs i n le in
    let loaded = get_function_data-agg_data data_strs i n get_data full answers (omega arith) p in
    let job = (store_job libs config r func_module_str data_strs w).0 in
    elim (Bool-cases (upload_data cz data_strs || config.batch)) [
      | inl up ↦
          worker_data-ranges get_data job (range_from i n)
            {key = create_data_key r.executor_id r.job_id} (rw up refl) (rw up refl) mine
          ∙ loaded
      | inr keep ↦
          worker_data-strings get_data job (range_from i n) (rw keep refl) (rw keep refl) own
    ]

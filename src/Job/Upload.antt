-- ===== src/Job/Upload.antt =====
-- The upload of the function.
use lithops.Base.{
  ◌≡◌, refl, true, false, ◌||◌, Option, none, some, List, [], ◌∷◌, Text, text_eq, text_eq→eq,
  text_eq_refl, is_none, if◌then◌else◌, Bool-cases, inl, inr,
}
use lithops.Payload.{agg_data, create_data_key, create_func_key}
use lithops.Job.Modules.{has}
use lithops.Job.Create.{
  Config, Libraries, Request, World, upload_function, store_job, or_else, upload_data,
}

-- The object that was put last under the key.
abbrev pub fetch : Text → List (Text × Text) → Option Text
fetch key [] = none
fetch key (object ∷ objects) = if text_eq key object.0 then some object.1 else fetch key objects

-- Every function of the cache is in the storage.
abbrev pub Cached : List Text → List (Text × Text) → Type 0
Cached [] stored = Unit
Cached (key ∷ keys) stored = (is_none (fetch key stored) ≡ false) × Cached keys stored

Cached-put :
    (keys : List Text) (stored : List (Text × Text)) (key body : Text)
    → Cached keys stored
    → Cached keys ((key, body) ∷ stored)
Cached-put [] stored key body h = tt
Cached-put (k ∷ keys) stored key body (here, h) = (
  elim (Bool-cases (text_eq k key)) [ inl e ↦ rw e refl | inr e ↦ rw e here ],
  Cached-put keys stored key body h,
)

Cached-fetch :
    (keys : List Text) (stored : List (Text × Text)) (key : Text)
    → Cached keys stored
    → has key keys ≡ true
    → is_none (fetch key stored) ≡ false
Cached-fetch [] stored key h e = cc
Cached-fetch (k ∷ keys) stored key (here, h) e = elim (Bool-cases (text_eq key k)) [
  | inl same ↦ rw (text_eq→eq key k same) here
  | inr other ↦ Cached-fetch keys stored key h (rw other at e)
]

upload_function-Cached :
    (key body : Text) (w : World)
    → Cached w.function_cache w.stored
    → let w' = upload_function key body w in
      (Cached w'.function_cache w'.stored) × (has key w'.function_cache ≡ true)
unfolding upload_function
upload_function-Cached key body w h = elim (Bool-cases (has key w.function_cache)) [
  | inl old ↦ rw old (h, (rw old refl))
  | inr fresh ↦
      let same = text_eq_refl key in
      rw fresh (((rw same refl), Cached-put w.function_cache w.stored key body h), (rw same refl))
]

-- Unless the runtime holds the function, creating a job keeps it so that every function in the
-- cache is in the storage, and afterwards the job's function is in the storage.
pub store_job_function :
    {F D : Type 0} (libs : Libraries F D) (config : Config) (r : Request F D)
    (func_module_str : Text) (data_strs : List Text) (w : World)
    → config.runtime_include_function ≡ false
    → Cached w.function_cache w.stored
    → let (job, w') = store_job libs config r func_module_str data_strs w in
      (Cached w'.function_cache w'.stored) × (is_none (fetch job.func_key w'.stored) ≡ false)
unfolding store_job
store_job_function libs config r func_module_str data_strs w i h =
    let key = create_func_key r.executor_id (libs.md5 func_module_str) in
    let u = upload_function key func_module_str w in
    let (cached, there) = upload_function-Cached key func_module_str w h in
    let data_key = create_data_key r.executor_id r.job_id in
    let chunksize = or_else r.chunksize config.chunksize in
    elim (Bool-cases (upload_data chunksize data_strs || config.batch)) [
      | inl up ↦
          let put_after =
            Cached-put u.function_cache u.stored data_key (agg_data data_strs).0 cached in
          rw (i, up) (put_after, Cached-fetch u.function_cache _ key put_after there)
      | inr keep ↦ rw (i, keep) (cached, Cached-fetch u.function_cache u.stored key cached there)
    ]

-- ===== src/Storage/Cleaner.antt =====
-- `clean_bucket` of lithops/storage/utils.py, and `clean_executor_jobs` and `clean_functions` of
-- lithops/scripts/cleaner.py. Waits and the files that tell the cleaner what to do are left out.
use lithops.Base.{
  ℕ, zero, suc, Bool, Option, none, some, List, [], ◌∷◌, ◌++◌, Text, codes, if◌then◌else◌,
}
use lithops.Payload.{join_by, jobs_prefix}

-- What is used of a storage, whose state is S.
pub record Bucket (S : Type 0) : Type 0 where
  pub list_keys : Text → S → List Text
  pub delete_objects : List Text → S → S

abbrev pub temp_prefix : Text
temp_prefix = codes "lithops.jobs/tmp"

-- '/'.join([prefix, name]) + '/'
abbrev pub folder : Text → Text → Text
folder prefix name = join_by b'/' (prefix ∷ name ∷ []) ++ b'/' ∷ []

module _ {S : Type 0} (bucket : Bucket S) where
  -- `while objects_to_delete`, on fuel.
  unfoldable pub clean_bucket : ℕ → Text → S → Option S
  clean_bucket zero prefix s = none
  clean_bucket (suc fuel) prefix s = elim (bucket.list_keys prefix s) [
    | [] ↦ some s
    | k ∷ keys ↦ clean_bucket fuel prefix (bucket.delete_objects (k ∷ keys) s)
  ]

  unfoldable pub clean_folders : ℕ → Text → List Text → S → Option S
  unfolding clean_bucket
  clean_folders fuel prefix [] s = some s
  clean_folders fuel prefix (job_key ∷ jobs_to_clean) s =
      elim (clean_bucket fuel (folder prefix job_key) s) [
        | none ↦ none
        | some s' ↦ clean_folders fuel prefix jobs_to_clean s'
      ]

  -- clean_executor_jobs, of the data of one file.
  unfoldable pub clean_jobs : ℕ → (clean_cloudobjects : Bool) → List Text → S → Option S
  unfolding clean_folders
  clean_jobs fuel clean_cloudobjects jobs_to_clean s =
      elim (clean_folders fuel jobs_prefix jobs_to_clean s) [
        | none ↦ none
        | some s' ↦
            if clean_cloudobjects then clean_folders fuel temp_prefix jobs_to_clean s' else some s'
      ]

  unfoldable pub clean_functions : Text → S → S
  clean_functions executor_id s =
      bucket.delete_objects (bucket.list_keys (folder jobs_prefix executor_id) s) s

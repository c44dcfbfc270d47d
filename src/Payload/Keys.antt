-- ===== src/Payload/Keys.antt =====
-- The keys under which a job's objects are stored.
use lithops.Base.{ℕ, List, [], ◌∷◌, ◌++◌, Text, codes}

-- '-'.join and '/'.join
abbrev pub join_by : ℕ → List Text → Text
join_by c [] = []
join_by c (t ∷ []) = t
join_by c (t ∷ u ∷ ts) = t ++ c ∷ join_by c (u ∷ ts)

-- JOBS_PREFIX of lithops/constants.py.
abbrev pub jobs_prefix : Text
jobs_prefix = codes "lithops.jobs"

unfoldable pub create_job_key : Text → Text → Text
create_job_key executor_id job_id = join_by b'-' (executor_id ∷ job_id ∷ [])

unfoldable pub create_func_key : Text → Text → Text
create_func_key executor_id function_hash =
    join_by b'/' (jobs_prefix ∷ executor_id ∷ (function_hash ++ b'.' ∷ codes "func.pickle") ∷ [])

unfoldable pub create_data_key : Text → Text → Text
unfolding create_job_key
create_data_key executor_id job_id =
    join_by b'/' (jobs_prefix ∷ create_job_key executor_id job_id ∷ codes "aggdata.pickle" ∷ [])

unfoldable pub create_output_key : Text → Text → Text → Text
unfolding create_job_key
create_output_key executor_id job_id call_id =
    join_by b'/'
      (jobs_prefix ∷ create_job_key executor_id job_id ∷ call_id ∷ codes "output.pickle" ∷ [])

unfoldable pub create_status_key : Text → Text → Text → Text
unfolding create_job_key
create_status_key executor_id job_id call_id =
    join_by b'/'
      (jobs_prefix ∷ create_job_key executor_id job_id ∷ call_id ∷ codes "status.json" ∷ [])

unfoldable pub create_init_key : Text → Text → Text → Text → Text
unfolding create_job_key
create_init_key executor_id job_id call_id act_id =
    join_by b'/'
      (jobs_prefix ∷ create_job_key executor_id job_id ∷ call_id ∷ (act_id ++ codes ".init") ∷ [])

-- ===== src/Executor/State.antt =====
-- The executor's own state.
use lithops.Base.{ℕ, ◌+◌, Option, none, List, [], Text}
use lithops.Wait.{Tracked}
use lithops.Executor.Ids.{job_name}

pub data LastCall : Type 0 where
  by_call_async by_map by_map_reduce : LastCall

pub record Executor (V E : Type 0) : Type 0 where
  pub futures : List (Tracked V E)
  pub cleaned_jobs : List Text
  pub total_jobs : ℕ
  pub last_call : Option LastCall
  -- What was saved for the cleaner, the last first: the keys of the jobs to clean.
  pub saved : List (List Text)

-- __init__
unfoldable pub new_executor : {V E : Type 0} → Executor V E
new_executor = record {
  futures = [];
  cleaned_jobs = [];
  total_jobs = 0;
  last_call = none;
  saved = [];
}

module _ {V E : Type 0} where
  unfoldable pub create_job_id : ℕ → Executor V E → Text × Executor V E
  unfolding job_name
  create_job_id call_type ex =
      (job_name call_type ex.total_jobs, record ex { total_jobs = ex.total_jobs + 1 })

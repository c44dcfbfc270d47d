-- ===== src/Invoker/Runs.antt =====
-- `_run_job` behind the invocation, and BatchInvoker, of lithops/invokers.py: the calls of a job and
-- their futures. Logs and metrics are left out, and so are runtimes that include the function.
use lithops.Base.{ℕ, Bool, List, map, Text, Option, none, some, if◌then◌else◌}
use lithops.Future.{Future, invoked, fresh, set_state}
use lithops.Executor.{str, zfill}
use lithops.Job.{Job}
use lithops.Payload.{Last}
use lithops.Invoker.Queue.{range_from}

-- "{:05d}".format(i)
unfoldable pub call_id_of : ℕ → Text
call_id_of i = zfill 5 (str i)

unfoldable pub call_ids_of : ℕ → List Text
unfolding call_id_of
call_ids_of total_calls = map call_id_of (range_from 0 total_calls)

-- The fields of a payload that say what the workers are to do.
pub record JobPayload : Type 0 where
  pub chunksize : ℕ
  pub total_calls : ℕ
  pub func_key : Text
  pub data_key : Option Text
  pub data_byte_ranges : Option (List (ℕ × Last))
  pub call_ids : Option (List Text)

-- _create_payload
unfoldable pub create_payload : Job → JobPayload
create_payload job = record {
  chunksize = job.chunksize;
  total_calls = job.total_calls;
  func_key = job.func_key;
  data_key = job.data_key;
  data_byte_ranges = job.data_byte_ranges;
  call_ids = none;
}

-- BatchInvoker._invoke_job: what the backend is given.
unfoldable pub batch_payload : Job → JobPayload
unfolding create_payload call_ids_of
batch_payload job = record (create_payload job) { call_ids = some (call_ids_of job.total_calls) }

-- A future for each call, with its id.
unfoldable pub create_futures : {V E : Type 0} → Job → List (Text × Future V E)
unfolding call_id_of set_state fresh
create_futures job =
    map (λ i. (call_id_of i, set_state invoked fresh)) (range_from 0 job.total_calls)

-- _run_job: no futures if the invocation raises; then it also stops the invoker, for which see `stop`.
unfoldable pub run_job_futures :
    {V E : Type 0} → (raises : Bool) → Job → Option (List (Text × Future V E))
unfolding create_futures
run_job_futures raises job = if raises then none else some (create_futures job)

-- ===== src/Examples/Jobs.antt =====
-- Jobs: their data, their function and their calls.
use lithops.Base.{
  ◌++◌, ◌-◌, ℕ, ◌+◌, ◌≤◌, ◌≡◌, refl, true, false, Option, none, some, List, [], ◌∷◌, Text, codes,
  length, take, drop, arith,
}
use lithops.Payload.{Last, at, minus_one, agg_data, get_function_data, ranges, iterchunks}
use lithops.Payload.Pieces.{flatten}
use lithops.Invoker.{Task, Invoker, init, invoke_job}
use lithops.Invoker.{to_tasks, queued, worker_data, workers_data}
use lithops.Invoker.Delivery.{invoke_job-data}
use lithops.Invoker.Workers.{busy, invoke_job_workers}
use lithops.Job.{
  Job, Config, Libraries, Request, World, store_job, localhost, modules, max_data_in_payload,
}
use lithops.Job.Upload.{fetch}
use lithops.Job.Carry.{AllFit, store_job_payload, store_job_data}

-- A storage that holds one object and answers ranges of it.
abbrev pub serve : Text → Option (ℕ × Last) → Text
serve stored none = stored
serve stored (some (first, minus_one)) = []
serve stored (some (first, at last)) = take (last + 1 - first) (drop first stored)

abbrev pub three_data : List Text
three_data = codes "ab" ∷ codes "c" ∷ codes "def" ∷ []

-- Seven calls, two to a worker, of whom there are two.
abbrev after_job : Invoker
unfolding init invoke_job
after_job = elim (invoke_job 2 0 7 2 init) [ none ↦ init | some v ↦ v ]

invoke_job_workers_example :
    (after_job.running_workers ≤ 2)
    × (length after_job.submitted + busy init ≡ length init.submitted + after_job.running_workers)
unfolding init invoke_job after_job iterchunks
invoke_job_workers_example = invoke_job_workers 2 0 7 2 init (omega arith) (omega arith) refl

abbrev first_task : Task
first_task = record { job = 0; call_ids = 0 ∷ 1 ∷ [] }

abbrev second_task : Task
second_task = record { job = 0; call_ids = 2 ∷ 3 ∷ [] }

abbrev first_accepted : Invoker
unfolding after_job
first_accepted = record after_job { submitted = second_task ∷ []; invoked = first_task ∷ [] }

-- The serializer of a job whose data are texts as they are.
abbrev pub plain_libraries : Libraries Text Text
plain_libraries = record {
  serialize = λ f ds included excluded. (f, ds, []);
  dumps = λ f paths. f;
  md5 = λ t. t;
}

abbrev local_config : Config
local_config = record {
  mode = localhost;
  chunksize = 1;
  execution_timeout = 1800;
  exclude_modules = none;
  include_modules = modules [];
  data_limit = none;
  runtime_include_function = false;
  batch = false;
}

abbrev pub batch_config : Config
batch_config = record local_config { batch = true }

abbrev pub request : Request Text Text
request = record {
  executor_id = codes "e";
  job_id = codes "A000";
  func = codes "f";
  iterdata = three_data;
  include_modules = none;
  exclude_modules = none;
  execution_timeout = none;
  chunksize = some 2;
}

abbrev pub no_objects : World
no_objects = record { stored = []; function_cache = [] }

store_job_payload_example :
    (chunks : List (List Text)) × (iterchunks three_data 2 ≡ some chunks)
    × (flatten chunks ≡ three_data)
    × AllFit max_data_in_payload chunks
unfolding store_job
store_job_payload_example =
    store_job_payload plain_libraries local_config request (codes "f") three_data no_objects refl
      (omega arith)

store_job_data_example :
    let (job, w) =
      store_job plain_libraries batch_config request (codes "f") three_data no_objects in
    (key : Text) × (job.data_key ≡ some key)
    × (fetch key w.stored ≡ some (agg_data three_data).0)
    × (get_function_data
          (serve (agg_data three_data).0)
          (ranges (take 2 (drop 1 (agg_data three_data).1)))
        ≡ some (take 2 (drop 1 three_data)))
unfolding store_job
store_job_data_example =
    store_job_data plain_libraries batch_config request (codes "f") three_data no_objects 1 2
      (serve (agg_data three_data).0) refl (omega arith, (omega arith, (omega arith, tt)))
      (omega arith) (omega arith) (λ first last le. refl)

unfoldable pub batch_job : Job
unfolding store_job
batch_job = (store_job plain_libraries batch_config request (codes "f") three_data no_objects).0

-- With one worker free, two of the three calls are submitted and one waits.
abbrev given : Invoker
unfolding invoke_job init batch_job
given = elim (invoke_job 1 0 3 2 init) [ none ↦ init | some v ↦ v ]

invoke_job-data_example :
    (now later : List (List ℕ)) × (given.submitted ≡ init.submitted ++ to_tasks 0 now)
    × (given.pending_calls_q ≡ init.pending_calls_q ++ queued (to_tasks 0 later))
    × (workers_data (worker_data (serve (agg_data three_data).0) batch_job) (now ++ later)
        ≡ some three_data)
unfolding batch_job given iterchunks
invoke_job-data_example =
    invoke_job-data plain_libraries batch_config request (codes "f") three_data no_objects
      (serve (agg_data three_data).0) 1 0 init (omega arith, (omega arith, (omega arith, tt)))
      (λ first last le. refl) refl (omega arith) refl

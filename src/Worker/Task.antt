-- ===== src/Worker/Task.antt =====
-- `run_task` of lithops/worker/handler.py, and the call status of lithops/worker/status.py in the
-- object storage.
use lithops.Base.{Bool, true, Option, none, some, List, [], ◌∷◌, Text, text_eq, if◌then◌else◌}
use lithops.Payload.{create_status_key, create_output_key, create_init_key}
use lithops.Future.{CallStatus, init, end, Storage}
use lithops.Worker.Runner.{
  Called, Stat, func_result_size, new_futures, result, failed, run_function,
}

-- What is raised: by the function, or by the handler for it.
pub data Raised (E : Type 0) : Type 0 where
  by_function : E → Raised E
  timeout_error : Raised E
  memory_error : Raised E
  init_error : E → Raised E

-- How the process of the job runner stands when `join` is back.
pub data Process : Type 0 where
  finished : Process
  still_alive : Process
  killed : Process

pub record Ids : Type 0 where
  pub executor_id : Text
  pub job_id : Text
  pub call_id : Text
  pub activation_id : Text

-- What a worker puts in the storage.
pub data Object (E : Type 0) : Type 0 where
  init_event : Object E
  output : Text → Object E
  call_status : CallStatus Text (Raised E) → Object E

-- The message is sent behind the upload, so a process that has finished has uploaded; one that is
-- killed or terminated may have done so too, which `uploaded` tells.
abbrev pub has_uploaded : Process → Bool → Bool
has_uploaded finished uploaded = true
has_uploaded still_alive uploaded = uploaded
has_uploaded killed uploaded = uploaded

module _ {E : Type 0} where
  -- CallStatus.__init__
  unfoldable pub create_call_status : CallStatus Text (Raised E)
  create_call_status = record {
    type = init;
    exception = none;
    new_futures = none;
    func_result_size = none;
    result = none;
  }

  -- `add`, of a line of the stats file.
  unfoldable pub add : Stat E → CallStatus Text (Raised E) → CallStatus Text (Raised E)
  add (func_result_size n) cs = record cs { func_result_size = some n }
  add (new_futures fs) cs = record cs { new_futures = some fs }
  add (result v) cs = record cs { result = some v }
  add (failed e) cs = record cs { exception = some (by_function e) }

  unfoldable pub add_all : List (Stat E) → CallStatus Text (Raised E) → CallStatus Text (Raised E)
  unfolding add
  add_all [] cs = cs
  add_all (s ∷ ss) cs = add_all ss (add s cs)

  -- An exception of the handler itself.
  abbrev pub add_exception : Raised E → CallStatus Text (Raised E) → CallStatus Text (Raised E)
  add_exception e cs = record cs { exception = some e }

  -- The stats are read only if the process has sent its message.
  unfoldable pub read_process :
      Process → List (Stat E) → CallStatus Text (Raised E) → CallStatus Text (Raised E)
  unfolding add_all
  read_process finished stats cs = add_all stats cs
  read_process still_alive stats cs = add_exception timeout_error cs
  read_process killed stats cs = add_exception memory_error cs

  -- StorageCallStatus._send
  unfoldable pub send :
      Ids → CallStatus Text (Raised E) → List (Text × Object E) → List (Text × Object E)
  send ids cs stored = elim cs.type [
    | init ↦
        (create_init_key ids.executor_id ids.job_id ids.call_id ids.activation_id, init_event)
        ∷ stored
    | end ↦ (create_status_key ids.executor_id ids.job_id ids.call_id, call_status cs) ∷ stored
  ]

  abbrev pub send_finish_event :
      Ids → CallStatus Text (Raised E) → List (Text × Object E) → List (Text × Object E)
  unfolding send
  send_finish_event ids cs stored = send ids (record cs { type = end }) stored

  -- The job runner's upload of the output, in its `finally`.
  unfoldable pub put_output : Ids → Option Text → List (Text × Object E) → List (Text × Object E)
  put_output ids none stored = stored
  put_output ids (some v) stored =
      (create_output_key ids.executor_id ids.job_id ids.call_id, output v) ∷ stored

  -- run_task, without a KeyboardInterrupt: the objects are the storage's, the last put first.
  unfoldable pub run_task :
      Ids → Called E → Process → (uploaded : Bool) → List (Text × Object E) → List (Text × Object E)
  unfolding create_call_status run_function read_process put_output
  run_task ids called process uploaded stored =
      let cs = create_call_status in
      let started = send ids cs stored in
      let ran = run_function called in
      let with_output =
        if has_uploaded process uploaded then put_output ids ran.output started else started in
      send_finish_event ids (read_process process ran.stats cs) with_output

  -- The init event cannot be put: the process is not started.
  unfoldable pub run_task_unsent : Ids → E → List (Text × Object E) → List (Text × Object E)
  unfolding create_call_status
  run_task_unsent ids e stored =
      send_finish_event ids (add_exception (init_error e) create_call_status) stored

  -- InternalStorage.get_call_status and get_call_output.
  abbrev pub fetch_object : Text → List (Text × Object E) → Option (Object E)
  fetch_object key [] = none
  fetch_object key (o ∷ objects) = if text_eq key o.0 then some o.1 else fetch_object key objects

  abbrev pub as_status : Option (Object E) → Option (CallStatus Text (Raised E))
  as_status (some (call_status cs)) = some cs
  as_status _ = none

  abbrev pub as_output : Option (Object E) → Option Text
  as_output (some (output v)) = some v
  as_output _ = none

  unfoldable pub storage_of : Ids → List (Text × Object E) → Storage Text (Raised E)
  storage_of ids stored = record {
    get_call_status = λ n.
        as_status (fetch_object (create_status_key ids.executor_id ids.job_id ids.call_id) stored);
    get_call_output = λ n.
        as_output (fetch_object (create_output_key ids.executor_id ids.job_id ids.call_id) stored);
  }

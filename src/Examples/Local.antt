-- ===== src/Examples/Local.antt =====
-- A job of the local backend, from the queue to its latch.
use lithops.Base.{
  ◌≡◌, ◌≤◌, ◌+◌, ◌&&◌, refl, false, some, List, [], ◌∷◌, ◌++◌, map, codes, count_if, leb, length,
  arith,
}
use lithops.Payload.{at, agg_data}
use lithops.Invoker.{JobPayload, batch_payload}
use lithops.Localhost.{
  Task, Environment, run_job, unlock_job, job_put, task_taken, task_ran, EnvReach, at_start,
  then_step, new_environment,
}
use lithops.Localhost.Puts.{mine, missed, forced_of}
use lithops.Localhost.Latches.{job_done-ran}
use lithops.Localhost.Calls.{tasks_data, each_alone, run_job-data}
use lithops.Examples.Jobs.{
  serve, three_data, plain_libraries, batch_config, request, no_objects, batch_job,
}

abbrev one_call : JobPayload
one_call = record {
  chunksize = 1;
  total_calls = 1;
  func_key = codes "f";
  data_key = some (codes "d");
  data_byte_ranges = some ((0, at 3) ∷ []);
  call_ids = some (codes "00000" ∷ []);
}

abbrev the_task : Task
the_task = record { job_key = 4; call_id = codes "00000"; data_byte_range = (0, at 3) }

abbrev after_put : Environment
unfolding run_job
after_put = (run_job 4 one_call new_environment).0

abbrev after_taken : Environment
after_taken = record after_put { work_queue = []; in_hand = the_task ∷ [] }

abbrev after_ran : Environment
after_ran = record (unlock_job 4 after_taken) { in_hand = []; ran = the_task ∷ [] }

ran_then : EnvReach new_environment after_ran
unfolding run_job new_environment unlock_job
ran_then =
    then_step
      (then_step (then_step at_start (job_put new_environment 4 one_call after_put refl refl))
        (task_taken after_put the_task [] refl))
      (task_ran after_taken [] [] the_task refl)

job_done-ran_example :
    let mine_too = λ (t : Task). mine 4 t && leb 1 (length t.call_id) in
    (missed 4 after_ran ≤ forced_of 4 after_ran)
    × (count_if mine_too after_ran.ran ≤ count_if mine_too after_ran.asked)
    × (count_if mine_too after_ran.asked ≤ count_if mine_too after_ran.ran + forced_of 4 after_ran)
unfolding run_job new_environment unlock_job
job_done-ran_example = job_done-ran 4 (λ t. leb 1 (length t.call_id)) ran_then refl refl

run_job-data_example :
    (env' : Environment) × (tasks : List Task) × (run_job 4
        (batch_payload batch_job)
        new_environment
      ≡ (env', false))
    × (env'.work_queue ≡ new_environment.work_queue ++ map some tasks)
    × (tasks_data (serve (agg_data three_data).0) tasks ≡ some (each_alone three_data))
unfolding batch_job
run_job-data_example =
    run_job-data (serve (agg_data three_data).0) three_data
      (omega arith, (omega arith, (omega arith, tt))) (λ first last le. refl) plain_libraries
      batch_config request (codes "f") no_objects 4 new_environment refl refl

-- ===== src/Localhost/Calls.antt =====
-- The data of a job's calls, through BatchInvoker and the queue of the local backend.
use lithops.Base.{
  ℕ, zero, suc, ◌+◌, ◌≤◌, ◌≡◌, refl, sym, ap, ◌∙◌, Bool, true, false, ◌||◌, Option, none, some,
  List, [], ◌∷◌, ◌++◌, append-nil, append_assoc, map, Text, length, take, drop, take_all, get_elem?,
  cons?, pos, arith,
}
use lithops.Job.{Config, Libraries, Request, World, store_job, upload_data, or_else}
use lithops.Payload.{Last, agg_data, ranges, get_function_data, ranges_from}
use lithops.Payload.Ranges.{NonEmpty, AnswersRanges, get_function_data-agg_data}
use lithops.Invoker.{range_from, call_id_of, call_ids_of, create_payload, batch_payload}
use lithops.Invoker.Loads.{drop-get_elem?, int-call_id_of, length-ranges_from}
use lithops.Localhost.Work.{Task, Environment, set_job, put_task, put_tasks, run_job}

-- What the workers of some tasks load, a list for each.
unfoldable pub tasks_data : (Option (ℕ × Last) → Text) → List Task → Option (List (List Text))
tasks_data get_data [] = some []
tasks_data get_data (t ∷ ts) = elim (get_function_data get_data (ranges (t.data_byte_range ∷ []))) [
  | none ↦ none
  | some mine ↦ cons? mine (tasks_data get_data ts)
]

or-true : (a b : Bool) → b ≡ true → (a || b) ≡ true
or-true true b e = refl
or-true false b e = e

abbrev pub each_alone : List Text → List (List Text)
each_alone data_strs = map (λ d. d ∷ []) data_strs

module _ (get_data : Option (ℕ × Last) → Text) (data_strs : List Text) (full : NonEmpty data_strs)
    (answers : AnswersRanges get_data (agg_data data_strs).0) where
  -- The tasks of consecutive calls.
  put_tasks-data :
      (key i n : ℕ) (env : Environment)
      → i + n ≤ length data_strs
      → (env' : Environment) × (tasks : List Task) × (put_tasks key
            (agg_data data_strs).1
            (map call_id_of (range_from i n))
            env
          ≡ (env', false))
        × (env'.work_queue ≡ env.work_queue ++ map some tasks)
        × (tasks_data get_data tasks ≡ some (each_alone (take n (drop i data_strs))))
  unfolding put_tasks tasks_data agg_data
  put_tasks-data key i zero env le = (env, [], refl, sym (append-nil env.work_queue), refl)
  put_tasks-data key i (suc n) env le =
      let dbrs = ranges_from 0 data_strs in
      let size = length-ranges_from 0 data_strs in
      let (r, here, ranges_left) = drop-get_elem? dbrs i (omega (arith, size)) in
      let (d, datum, left) = drop-get_elem? data_strs i (omega arith) in
      let t : Task = record { job_key = key; call_id = call_id_of i; data_byte_range = r } in
      let (env', tasks, put, queue, loaded) =
        put_tasks-data key (suc i) n (put_task t env) (omega arith) in
      let found = ap (get_elem? dbrs) (int-call_id_of i) ∙ here in
      let loads =
        get_function_data-agg_data data_strs i 1 get_data full answers (omega arith)
          (omega arith) in
      let one : get_function_data get_data (ranges (r ∷ [])) ≡ some (d ∷ []) =
        ap (λ l. get_function_data get_data (ranges (take 1 l))) (sym ranges_left)
        ∙ loads
        ∙ ap (λ l. some (take 1 l)) left in
      (
        env',
        t ∷ tasks,
        (rw (found, put_tasks) put),
        queue ∙ append_assoc env.work_queue (some t ∷ []) (map some tasks),
        rw (one, tasks_data, loaded) (ap (λ l. some (each_alone (take (suc n) l))) (sym left)),
      )

  -- A job of a batch backend, its data not empty and one datum for each call, is run by the local
  -- backend without an error, on whatever it has in hand: a task for each call comes behind what is in
  -- the queue, and the workers of the tasks load the data of their own calls, each one datum, in the
  -- order of the calls, from a storage that answers ranges.
  pub run_job-data :
      {F D : Type 0} (libs : Libraries F D) (config : Config) (r : Request F D)
      (func_module_str : Text) (w : World) (key : ℕ) (env : Environment)
      → config.batch ≡ true
      → length r.iterdata ≡ length data_strs
      → (env' : Environment) × (tasks : List Task) × (run_job key
            (batch_payload (store_job libs config r func_module_str data_strs w).0)
            env
          ≡ (env', false))
        × (env'.work_queue ≡ env.work_queue ++ map some tasks)
        × (tasks_data get_data tasks ≡ some (each_alone data_strs))
  unfolding run_job batch_payload create_payload store_job agg_data call_ids_of
  run_job-data libs config r func_module_str w key env batch one =
      let up : (upload_data (or_else r.chunksize config.chunksize) data_strs || config.batch)
          ≡ true =
        or-true (upload_data (or_else r.chunksize config.chunksize) data_strs) config.batch batch in
      let n = length r.iterdata in
      let ids = map call_id_of (range_from 0 n) in
      let latched = record env { jobs = set_job key (pos (length ids)) env.jobs } in
      let (env', tasks, put, queue, loaded) = put_tasks-data key 0 n latched (omega (arith, one)) in
      (
        env',
        tasks,
        rw (up, run_job) put,
        queue,
        loaded ∙ ap (λ l. some (each_alone l)) (take_all n data_strs (omega (arith, one))),
      )

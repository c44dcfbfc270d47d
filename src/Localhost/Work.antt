-- ===== src/Localhost/Work.antt =====
-- ExecutionEnvironment of lithops/localhost/v2/localhost.py, and CountDownLatch of lithops/utils.py.
-- A job's key is a number. The process of a task and its files are left out: a task is run whatever
-- its return code.
use lithops.Base.{
  ℕ, zero, suc, ◌≡◌, Bool, true, false, Option, none, some, List, [], ◌∷◌, ◌++◌, Text, length,
  get_elem?, ◌==◌, if◌then◌else◌, ℤ, pos, negsuc, pred_ℤ,
}
use lithops.Executor.{int}
use lithops.Payload.{Last}
use lithops.Invoker.{JobPayload}

-- unlock, `done`, and whether `wait` waits, of a latch, which is its count.
unfoldable pub unlock : ℤ → ℤ
unlock count = pred_ℤ count

abbrev pub done : ℤ → Bool
done (pos zero) = true
done (pos (suc n)) = false
done (negsuc n) = false

abbrev pub waits : ℤ → Bool
waits (pos zero) = false
waits (pos (suc n)) = true
waits (negsuc n) = false

-- A payload with one call, and the range of its data.
pub record Task : Type 0 where
  pub job_key : ℕ
  pub call_id : Text
  pub data_byte_range : ℕ × Last

-- `none` in the queue ends a consumer. `in_hand` are the tasks that the consumers run. `asked`
-- and `ran` are what was put in the queue, and what was run; `dropped` and `forced` are the tasks that
-- `clear` takes from the queue, and the jobs' keys whose latches it unlocks, once for each time.
pub record Environment : Type 0 where
  pub work_queue : List (Option Task)
  pub jobs : ℕ → Option ℤ
  pub in_hand : List Task
  pub asked : List Task
  pub ran : List Task
  pub dropped : List Task
  pub forced : List ℕ

abbrev pub set_job : ℕ → ℤ → (ℕ → Option ℤ) → ℕ → Option ℤ
set_job key count jobs = λ k. if k == key then some count else jobs k

abbrev pub put_task : Task → Environment → Environment
put_task t env = record env {
  work_queue = env.work_queue ++ some t ∷ [];
  asked = env.asked ++ t ∷ [];
}

-- The loop of run_job: `true` is an index out of range, which leaves what was put before.
unfoldable pub put_tasks :
    (job_key : ℕ) → List (ℕ × Last) → List Text → Environment → Environment × Bool
put_tasks job_key dbr [] env = (env, false)
put_tasks job_key dbr (call_id ∷ call_ids) env = elim (get_elem? dbr (int call_id)) [
  | none ↦ (env, true)
  | some r ↦
      let t : Task = record { job_key = job_key; call_id = call_id; data_byte_range = r } in
      put_tasks job_key dbr call_ids (put_task t env)
]

-- `None` has no length and no elements: an error that comes before or behind the latch.
unfoldable pub run_job : (job_key : ℕ) → JobPayload → Environment → Environment × Bool
unfolding put_tasks
run_job job_key payload env = elim payload.call_ids [
  | none ↦ (env, true)
  | some call_ids ↦
      let latched = record env { jobs = set_job job_key (pos (length call_ids)) env.jobs } in
      elim payload.data_byte_ranges [
        | none ↦ (latched, if length call_ids == 0 then false else true)
        | some dbr ↦ put_tasks job_key dbr call_ids latched
      ]
]

-- self.jobs[job_key].unlock()
unfoldable pub unlock_job : ℕ → Environment → Environment
unfolding unlock
unlock_job key env = elim (env.jobs key) [
  | none ↦ env
  | some count ↦ record env { jobs = set_job key (unlock count) env.jobs }
]

-- A none for each consumer.
unfoldable pub stop : (worker_processes : ℕ) → Environment → Environment
stop zero env = env
stop (suc n) env = stop n (record env { work_queue = env.work_queue ++ none ∷ [] })

-- A turn of the loop of `clear` that empties the queue.
abbrev pub drop_one : Option Task → List (Option Task) → Environment → Environment
drop_one none rest env = record env { work_queue = rest }
drop_one (some t) rest env = record env { work_queue = rest; dropped = t ∷ env.dropped }

-- New jobs come, the consumers take tasks and run them, and `clear` drops tasks, stops the
-- environment and unlocks latches that are not done, in any order.
pub data EnvStep : Environment → Environment → Type 0 where
  job_put :
      (env : Environment) (job_key : ℕ) (payload : JobPayload) (env' : Environment)
      → env.jobs job_key ≡ none
      → run_job job_key payload env ≡ (env', false)
      → EnvStep env env'
  task_taken :
      (env : Environment) (t : Task) (rest : List (Option Task))
      → env.work_queue ≡ some t ∷ rest
      → EnvStep env (record env { work_queue = rest; in_hand = t ∷ env.in_hand })
  task_ran :
      (env : Environment) (before after : List Task) (t : Task)
      → env.in_hand ≡ before ++ t ∷ after
      → EnvStep env
          (record (unlock_job t.job_key env) { in_hand = before ++ after; ran = t ∷ env.ran })
  consumer_ended :
      (env : Environment) (rest : List (Option Task))
      → env.work_queue ≡ none ∷ rest
      → EnvStep env (record env { work_queue = rest })
  stopped : (env : Environment) (worker_processes : ℕ) → EnvStep env (stop worker_processes env)
  dropped_one :
      (env : Environment) (event : Option Task) (rest : List (Option Task))
      → env.work_queue ≡ event ∷ rest
      → EnvStep env (drop_one event rest env)
  forced_one :
      (env : Environment) (key : ℕ) (count : ℤ)
      → env.jobs key ≡ some count
      → done count ≡ false
      → EnvStep env (record (unlock_job key env) { forced = key ∷ env.forced })

pub data EnvReach (v : Environment) : Environment → Type 0 where
  at_start : EnvReach v v
  then_step : {e f : Environment} → EnvReach v e → EnvStep e f → EnvReach v f

-- __init__
unfoldable pub new_environment : Environment
new_environment = record {
  work_queue = [];
  jobs = λ k. none;
  in_hand = [];
  asked = [];
  ran = [];
  dropped = [];
  forced = [];
}

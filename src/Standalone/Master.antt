-- ===== src/Standalone/Master.antt =====
-- `handle_job` and `cancel_job_process` of lithops/standalone/master.py, on the work queues in Redis:
-- tasks are pushed at the left and taken at the right. What JSON makes of a task is a number. The
-- requests to the workers and the files that mark a job as done are left out.
use lithops.Base.{
  ℕ, zero, suc, Bool, true, false, Option, none, some, List, [], ◌∷◌, ◌++◌, length, get_elem?, ◌==◌,
  if◌then◌else◌,
}
use lithops.Redis.{Redis}

pub data JobStatus : Type 0 where
  submitted pending running done canceled : JobStatus

-- What is kept of a job under its key, with the fields that are only shown left out.
pub record JobData : Type 0 where
  pub status : JobStatus
  pub total_tasks : ℕ
  pub queue_name : ℕ

pub record Server (S : Type 0) : Type 0 where
  pub client : S
  pub jobs : ℕ → Option JobData

-- R is a range of bytes. `dumps` gives the task of a job for a call and its range.
pub record JobPayload (R : Type 0) : Type 0 where
  pub job_key : ℕ
  pub call_ids : List ℕ
  pub data_byte_ranges : List R
  pub dumps : ℕ → R → ℕ

abbrev pub set_job : {S : Type 0} → ℕ → Option JobData → Server S → Server S
set_job job_key d server = record server { jobs = λ k. if k == job_key then d else server.jobs k }

abbrev pub is_finished : JobStatus → Bool
is_finished done = true
is_finished _ = false

module _ {S : Type 0} (redis : Redis S) where
  -- `none` is the IndexError, which leaves the tasks that were pushed.
  unfoldable pub push_tasks : {R : Type 0} → JobPayload R → ℕ → List ℕ → S → Option S
  push_tasks job queue_name [] s = some s
  push_tasks job queue_name (call_id ∷ call_ids) s = elim (get_elem? job.data_byte_ranges call_id) [
    | none ↦ none
    | some dbr ↦
        push_tasks job queue_name call_ids (redis.lpush queue_name (job.dumps call_id dbr) s)
  ]

  unfoldable pub handle_job : {R : Type 0} → JobPayload R → ℕ → Server S → Option (Server S)
  unfolding push_tasks
  handle_job job queue_name server =
      let d : JobData = record {
        status = submitted;
        total_tasks = length job.call_ids;
        queue_name = queue_name;
      } in
      let server' = set_job job.job_key (some d) server in
      elim (push_tasks job queue_name job.call_ids server'.client) [
        | none ↦ none
        | some s ↦ some (record server' { client = s })
      ]

  -- The loop that empties the queue, on fuel; `job_of` reads a task's job key. A queue whose last
  -- task is taken behind the test of its length is a TypeError: `none`, like the end of the fuel.
  unfoldable pub drain : ℕ → (ℕ → ℕ) → ℕ → ℕ → List ℕ → S → Option (List ℕ × S)
  drain zero job_of job_key queue_name tmp_queue s = none
  drain (suc fuel) job_of job_key queue_name tmp_queue s =
      let (task, s') = redis.rpop queue_name s in
      if redis.llen queue_name s == 0 then some (tmp_queue, s) else elim task [
        | none ↦ none
        | some t ↦
            drain fuel job_of job_key queue_name
              (if job_of t == job_key then tmp_queue else tmp_queue ++ t ∷ []) s'
      ]

  unfoldable pub push_back : ℕ → List ℕ → S → S
  push_back queue_name [] s = s
  push_back queue_name (t ∷ tmp_queue) s =
      push_back queue_name tmp_queue (redis.lpush queue_name t s)

  -- cancel_job_process for one job; an unknown one has no queue. `workers` is the number of the
  -- workers that are known: a pool of none raises, `true`, before the status is set.
  unfoldable pub cancel_job :
      ℕ → (ℕ → ℕ) → (workers job_key : ℕ) → Server S → Option (Server S × Bool)
  unfolding drain push_back
  cancel_job fuel job_of workers job_key server = elim (server.jobs job_key) [
    | none ↦ none
    | some d ↦ elim (drain fuel job_of job_key d.queue_name [] server.client) [
      | none ↦ none
      | some (tmp_queue, s) ↦
          let emptied = record server { client = push_back d.queue_name tmp_queue s } in
          if workers == 0
          then some (emptied, true)
          else (if is_finished d.status
              then some (emptied, false)
              else some (set_job job_key (some (record d { status = canceled })) emptied, false))
    ]
  ]

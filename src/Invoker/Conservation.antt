-- ===== src/Invoker/Conservation.antt =====
-- Where the calls are on their way through the invoker.
use lithops.Base.{ℕ, ◌+◌, Bool, Option, none, some, List, [], ◌∷◌, count_if}
use lithops.Invoker.Queue.{Task, Invoker, range_from}

-- The calls, as job and number, that a test accepts, counted.
module _ (q : ℕ → ℕ → Bool) where
  abbrev pub in_task : Task → ℕ
  in_task t = count_if (q t.job) t.call_ids

  abbrev pub in_tasks : List Task → ℕ
  in_tasks [] = 0
  in_tasks (t ∷ ts) = in_task t + in_tasks ts

  abbrev pub in_queue : List (Option Task) → ℕ
  in_queue [] = 0
  in_queue (none ∷ ts) = in_queue ts
  in_queue (some t ∷ ts) = in_task t + in_queue ts

  -- Those that wait, are being submitted, are with the backend, or are lost to an exception.
  abbrev pub held : Invoker → ℕ
  held v =
      in_queue v.pending_calls_q + in_tasks v.submitted + in_tasks v.invoked + in_tasks v.failed

  abbrev pub asked_for : List (ℕ × ℕ) → ℕ
  asked_for [] = 0
  asked_for ((job, total_calls) ∷ jobs) =
      count_if (q job) (range_from 0 total_calls) + asked_for jobs

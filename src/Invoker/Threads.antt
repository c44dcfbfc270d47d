-- ===== src/Invoker/Threads.antt =====
-- The interleavings of `_invoke_job`, the invoker threads, the thread pools and the monitor, up to a
-- call of `stop`, after which the threads end one by one and the calls that wait are dropped.
use lithops.Base.{ℕ, suc, ◌+◌, ◌≡◌, true, Option, none, some, List, [], ◌∷◌, ◌++◌}
use lithops.Invoker.Queue.{Task, Invoker, invoke_job}

-- A step, labelled with what is asked of the invoker in it: a job's number and calls, or nothing.
pub data Step (max_workers : ℕ) : Invoker → Option (ℕ × ℕ) → Invoker → Type 0 where
  invoke :
      {v v' : Invoker} (job total_calls chunksize : ℕ)
      → invoke_job max_workers job total_calls chunksize v ≡ some v'
      → Step max_workers v (some (job, total_calls)) v'
  -- The monitor saw a worker end.
  token :
      (v : Invoker) → Step max_workers v none (record v { token_bucket_q = v.token_bucket_q + 1 })
  -- invoker_process: `token_bucket_q.get()`
  take_token :
      (v : Invoker) (tokens waiting : ℕ)
      → v.token_bucket_q ≡ suc tokens
      → v.waiting ≡ suc waiting
      → Step max_workers v none
          (record v { token_bucket_q = tokens; waiting = waiting; holding = v.holding + 1 })
  -- `pending_calls_q.get()`, then the test of `should_run`.
  take_call :
      (v : Invoker) (task : Task) (rest : List (Option Task)) (holding : ℕ)
      → v.pending_calls_q ≡ some task ∷ rest
      → v.holding ≡ suc holding
      → v.should_run ≡ true
      → Step max_workers v none (record v {
        pending_calls_q = rest;
        submitted = v.submitted ++ task ∷ [];
        waiting = v.waiting + 1;
        holding = holding;
      })
  -- A none is submitted as it is, and fails in the pool; nobody reads that.
  take_none :
      (v : Invoker) (rest : List (Option Task)) (holding : ℕ)
      → v.pending_calls_q ≡ none ∷ rest
      → v.holding ≡ suc holding
      → v.should_run ≡ true
      → Step max_workers v none
          (record v { pending_calls_q = rest; waiting = v.waiting + 1; holding = holding })
  -- `_invoke_task`: the backend took the call,
  accept :
      (v : Invoker) (before after : List Task) (task : Task)
      → v.submitted ≡ before ++ task ∷ after
      → Step max_workers v none
          (record v { submitted = before ++ after; invoked = v.invoked ++ task ∷ [] })
  -- or its quota is reached: the call waits again, with a token.
  refuse :
      (v : Invoker) (before after : List Task) (task : Task)
      → v.submitted ≡ before ++ task ∷ after
      → Step max_workers v none (record v {
        submitted = before ++ after;
        pending_calls_q = v.pending_calls_q ++ some task ∷ [];
        token_bucket_q = v.token_bucket_q + 1;
      })
  -- or the invocation raises: the exception stays in the pool, and the calls are not made again.
  fail :
      (v : Invoker) (before after : List Task) (task : Task)
      → v.submitted ≡ before ++ task ∷ after
      → Step max_workers v none
          (record v { submitted = before ++ after; failed = v.failed ++ task ∷ [] })

-- Steps one after the other, with the jobs asked for, the last one first.
pub data Reach (max_workers : ℕ) (s : Invoker) : List (ℕ × ℕ) → Invoker → Type 0 where
  here : Reach max_workers s [] s
  more :
      {t u : Invoker} {asked : List (ℕ × ℕ)}
      → Reach max_workers s asked t
      → Step max_workers t none u
      → Reach max_workers s asked u
  ask :
      {t u : Invoker} {asked : List (ℕ × ℕ)} (job total_calls : ℕ)
      → Reach max_workers s asked t
      → Step max_workers t (some (job, total_calls)) u
      → Reach max_workers s ((job, total_calls) ∷ asked) u

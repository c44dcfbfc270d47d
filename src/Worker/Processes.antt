-- ===== src/Worker/Processes.antt =====
-- `function_handler` of lithops/worker/handler.py: a queue of calls and the processes that serve it.
use lithops.Base.{ℕ, zero, suc, ◌+◌, ◌≡◌, min, List, [], ◌∷◌, ◌++◌, map, length}

-- A call, by its number, or the object that ends a process.
pub data Event : Type 0 where
  call : ℕ → Event
  shutdown_sentinel : Event

abbrev pub sentinels : ℕ → List Event
sentinels zero = []
sentinels (suc n) = shutdown_sentinel ∷ sentinels n

-- `idle` processes wait for an event, the others run a call of `running`, or have ended: at their
-- sentinel, or before it. `gone` is the number of those that the queue's exception ended, and `died`
-- are the calls whose exceptions ended a process.
pub record Pool : Type 0 where
  pub work_queue : List Event
  pub idle : ℕ
  pub running : List ℕ
  pub ran : List ℕ
  pub gone : ℕ
  pub died : List ℕ

abbrev pub processes : ℕ → List ℕ → ℕ
processes worker_processes call_ids = min worker_processes (length call_ids)

-- The queue is filled and the processes are started. With one process it is the handler's own.
unfoldable pub start_pool : ℕ → List ℕ → Pool
start_pool worker_processes call_ids =
    let n = processes worker_processes call_ids in
    record {
      work_queue = map call call_ids ++ sentinels n;
      idle = n;
      running = [];
      ran = [];
      gone = 0;
      died = [];
    }

-- python_queue_consumer, an event at a time.
pub data PoolStep : Pool → Pool → Type 0 where
  take_call :
      (p : Pool) (c : ℕ) (rest : List Event) (idle : ℕ)
      → p.work_queue ≡ call c ∷ rest
      → p.idle ≡ suc idle
      → PoolStep p (record p { work_queue = rest; idle = idle; running = c ∷ p.running })
  -- prepare_and_run_task is back.
  finish :
      (p : Pool) (before after : List ℕ) (c : ℕ)
      → p.running ≡ before ++ c ∷ after
      → PoolStep p (record p { idle = p.idle + 1; running = before ++ after; ran = c ∷ p.ran })
  shut_down :
      (p : Pool) (rest : List Event) (idle : ℕ)
      → p.work_queue ≡ shutdown_sentinel ∷ rest
      → p.idle ≡ suc idle
      → PoolStep p (record p { work_queue = rest; idle = idle })
  -- work_queue.get raises Empty or BrokenPipeError.
  go :
      (p : Pool) (idle : ℕ)
      → p.idle ≡ suc idle
      → PoolStep p (record p { idle = idle; gone = p.gone + 1 })
  -- prepare_and_run_task raises.
  die :
      (p : Pool) (before after : List ℕ) (c : ℕ)
      → p.running ≡ before ++ c ∷ after
      → PoolStep p (record p { running = before ++ after; died = c ∷ p.died })

pub data PoolReach (s : Pool) : Pool → Type 0 where
  at_start : PoolReach s s
  then_step : {t u : Pool} → PoolReach s t → PoolStep t u → PoolReach s u

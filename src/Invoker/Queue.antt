-- ===== src/Invoker/Queue.antt =====
-- The state of the invoker and `_invoke_job`. Logs, metrics and the contents of the payload are left
-- out. A queue is a list with its head first; a call of the backend is its job and call numbers.
use lithops.Base.{
  ℕ, zero, suc, ◌+◌, ◌-◌, ◌*◌, ◌/◌, ◌%◌, Bool, true, false, Option, none, some, List, [], ◌∷◌, ◌++◌,
  map, take, drop, length, ltb, ◌==◌, if◌then◌else◌,
}
use lithops.Payload.{iterchunks}

pub record Task : Type 0 where
  pub job : ℕ
  pub call_ids : List ℕ

-- Tokens are all alike, so the token bucket is their number. `none` in `pending_calls_q` is the pair
-- (None, None) of `stop`. `submitted` holds what the thread pools have in hand, `invoked` what
-- the backend took, and `failed` those whose invocation raised. `waiting` and `holding` count the invoker threads without and with a token.
pub record Invoker : Type 0 where
  pub should_run : Bool
  pub running_workers : ℕ
  pub token_bucket_q : ℕ
  pub pending_calls_q : List (Option Task)
  pub submitted : List Task
  pub invoked : List Task
  pub failed : List Task
  pub invokers : ℕ
  pub waiting : ℕ
  pub holding : ℕ

-- ASYNC_INVOKERS
abbrev pub async_invokers : ℕ
async_invokers = 2

-- range(n), from i on.
abbrev pub range_from : ℕ → ℕ → List ℕ
range_from i zero = []
range_from i (suc n) = i ∷ range_from (suc i) n

-- __init__
unfoldable pub init : Invoker
init = record {
  should_run = false;
  running_workers = 0;
  token_bucket_q = 0;
  pending_calls_q = [];
  submitted = [];
  invoked = [];
  failed = [];
  invokers = 0;
  waiting = 0;
  holding = 0;
}

-- _start_async_invokers: a token and a thread, twice.
unfoldable pub start_async_invokers : Invoker → Invoker
start_async_invokers v = record v {
  token_bucket_q = v.token_bucket_q + async_invokers;
  invokers = v.invokers + async_invokers;
  waiting = v.waiting + async_invokers;
}

-- The first test of `_invoke_job`.
unfoldable pub ensure_running : Invoker → Invoker
unfolding start_async_invokers
ensure_running v =
    if v.should_run
    then v
    else start_async_invokers (record v { running_workers = 0; should_run = true })

-- Each token left in the bucket stands for a worker that has ended: (running_workers, tokens).
unfoldable pub drain_tokens : ℕ → ℕ → ℕ × ℕ
drain_tokens running zero = (running, zero)
drain_tokens zero (suc tokens) = (zero, suc tokens)
drain_tokens (suc running) (suc tokens) = drain_tokens running tokens

unfoldable pub drain : Invoker → Invoker
unfolding drain_tokens
drain v =
    let (running, tokens) = drain_tokens v.running_workers v.token_bucket_q in
    record v { running_workers = running; token_bucket_q = tokens }

abbrev pub to_task : ℕ → List ℕ → Task
to_task job ids = record { job = job; call_ids = ids }

abbrev pub to_tasks : ℕ → List (List ℕ) → List Task
to_tasks job chunks = map (to_task job) chunks

abbrev pub queued : List Task → List (Option Task)
queued tasks = map some tasks

-- ci // cz + (ci % cz > 0)
unfoldable pub workers_for : ℕ → ℕ → ℕ
workers_for ci cz = ci / cz + (if ltb 0 (ci % cz) then 1 else 0)

-- The rest of `_invoke_job`; `none` is the error of `range` for a chunk size of 0.
unfoldable pub distribute : (max_workers job total_calls chunksize : ℕ) → Invoker → Option Invoker
unfolding workers_for
distribute max_workers job total_calls chunksize v =
    let callids = range_from 0 total_calls in
    if ltb v.running_workers max_workers
    then (let total_direct = (max_workers - v.running_workers) * chunksize in
        let direct = take total_direct callids in
        elim (iterchunks direct chunksize) [
          | none ↦ none
          | some now ↦ elim (iterchunks (drop total_direct callids) chunksize) [
            | none ↦ none
            | some later ↦ some (record v {
              running_workers = v.running_workers + workers_for (length direct) chunksize;
              submitted = v.submitted ++ to_tasks job now;
              pending_calls_q = v.pending_calls_q ++ queued (to_tasks job later);
            })
          ]
        ])
    else elim (iterchunks callids chunksize) [
      | none ↦ none
      | some later ↦
          some (record v { pending_calls_q = v.pending_calls_q ++ queued (to_tasks job later) })
    ]

unfoldable pub invoke_job : (max_workers job total_calls chunksize : ℕ) → Invoker → Option Invoker
unfolding ensure_running drain distribute
invoke_job max_workers job total_calls chunksize v =
    distribute max_workers job total_calls chunksize (drain (ensure_running v))

-- `stop`, if there are invokers: the queue is emptied, and each thread gets a token and a call that
-- is none, to wake it.
abbrev pub repeat_none : ℕ → List (Option Task)
repeat_none zero = []
repeat_none (suc n) = none ∷ repeat_none n

unfoldable pub stop : Invoker → Invoker
stop v = if v.invokers == 0 then v else record v {
  should_run = false;
  pending_calls_q = repeat_none v.invokers;
  token_bucket_q = v.token_bucket_q + v.invokers;
  invokers = 0;
}

-- ===== src/Monitor/Tokens.antt =====
-- `_generate_tokens` of the two monitors: a token for each worker that has done all its calls. A
-- worker is its activation's number. A set is a list; what order a set is read in is left to it.
use lithops.Base.{
  ℕ, ◌+◌, Bool, false, not, ◌&&◌, ◌||◌, Option, none, some, List, [], ◌∷◌, ◌++◌, length, ◌==◌,
  if◌then◌else◌, keep,
}

-- A call: its job and its number. The executor is the monitor's.
pub record Call : Type 0 where
  pub job : ℕ
  pub call_id : ℕ

abbrev pub call_eq : Call → Call → Bool
call_eq c d = c.job == d.job && c.call_id == d.call_id

abbrev pub has_call : Call → List Call → Bool
has_call c [] = false
has_call c (d ∷ ds) = call_eq c d || has_call c ds

abbrev pub has_id : ℕ → List ℕ → Bool
has_id n [] = false
has_id n (m ∷ ms) = n == m || has_id n ms

-- A dictionary of lists, by worker.
abbrev pub Workers : Type 0
Workers = List (ℕ × List Call)

abbrev pub calls_of : ℕ → Workers → List Call
calls_of worker [] = []
calls_of worker ((w, calls) ∷ rest) = if worker == w then calls else calls_of worker rest

-- workers[worker].append(call), of a new list where there is none.
unfoldable pub add_call : ℕ → Call → Workers → Workers
add_call worker call [] = (worker, call ∷ []) ∷ []
add_call worker call ((w, calls) ∷ rest) =
    let rest' = add_call worker call rest in
    if worker == w then (w, calls ++ call ∷ []) ∷ rest else (w, calls) ∷ rest'

pub record Monitor : Type 0 where
  pub should_run : Bool
  pub generate_tokens : Bool
  pub token_bucket_q : ℕ
  pub workers_done : List ℕ
  pub callids_done_worker : Workers

-- The part that the two share: a worker is done once, when it has done exactly a chunk.
unfoldable pub mark_done : ℕ → ℕ → Monitor → Monitor
mark_done worker chunksize m =
    if not (has_id worker m.workers_done)
      && length (calls_of worker m.callids_done_worker) == chunksize
    then record m {
      workers_done = m.workers_done ++ worker ∷ [];
      token_bucket_q = if m.should_run then m.token_bucket_q + 1 else m.token_bucket_q;
    }
    else m

-- The fields of a call status that a token depends on.
pub record Ended : Type 0 where
  pub call : Call
  pub activation_id : ℕ
  pub chunksize : ℕ

-- RabbitmqMonitor: for each status that ends a call.
unfoldable pub generate_token : Ended → Monitor → Monitor
unfolding add_call mark_done
generate_token status m =
    if not m.generate_tokens || not m.should_run
    then m
    else mark_done status.activation_id status.chunksize (record m {
      callids_done_worker = add_call status.activation_id status.call m.callids_done_worker;
    })

abbrev pub generate_each : List Ended → Monitor → Monitor
generate_each [] m = m
generate_each (status ∷ statuses) m = generate_each statuses (generate_token status m)

-- StorageMonitor. Its dictionary `workers` is left out: it is written and never read.
pub record StorageMonitor : Type 0 where
  pub monitor : Monitor
  pub present_jobs : List ℕ
  pub job_chunksize : ℕ → ℕ
  pub callids_running_worker : List (Call × ℕ)
  pub callids_running_processed : List (Call × ℕ)
  pub callids_done_processed : List Call

abbrev pub has_running : Call × ℕ → List (Call × ℕ) → Bool
has_running r [] = false
has_running r (s ∷ rest) = (call_eq r.0 s.0 && r.1 == s.1) || has_running r rest

-- The worker that a call was last seen on.
abbrev pub worker_of : Call → List (Call × ℕ) → Option ℕ
worker_of call [] = none
worker_of call ((c, w) ∷ rest) = if call_eq call c then some w else worker_of call rest

-- callids_running_worker[call_id] = worker_id: the last one first.
unfoldable pub note_running : List (Call × ℕ) → List (Call × ℕ) → List (Call × ℕ)
note_running [] seen = seen
note_running (r ∷ running) seen = note_running running (r ∷ seen)

unfoldable pub note_done : List (Call × ℕ) → List Call → Workers → Workers
unfolding add_call
note_done seen [] workers = workers
note_done seen (call ∷ calls) workers =
    let there : Workers = elim (worker_of call seen) [
      | none ↦ workers
      | some w ↦ add_call w call workers
    ] in
    note_done seen calls there

-- The loop over `callids_done_worker`; the list of a worker is never empty.
unfoldable pub mark_each : List ℕ → (ℕ → ℕ) → Workers → Monitor → Monitor
unfolding mark_done
mark_each present_jobs job_chunksize [] m = m
mark_each present_jobs job_chunksize ((w, []) ∷ rest) m =
    mark_each present_jobs job_chunksize rest m
mark_each present_jobs job_chunksize ((w, call ∷ calls) ∷ rest) m =
    let m' = if has_id call.job present_jobs then mark_done w (job_chunksize call.job) m else m in
    mark_each present_jobs job_chunksize rest m'

-- callids_running_to_process and callids_done_to_process
abbrev pub running_to_process : List (Call × ℕ) → StorageMonitor → List (Call × ℕ)
running_to_process callids_running s =
    keep (λ r. not (has_running r s.callids_running_processed)) callids_running

abbrev pub done_to_process : List Call → StorageMonitor → List Call
done_to_process callids_done s = keep (λ c. not (has_call c s.callids_done_processed)) callids_done

abbrev pub note_calls : List (Call × ℕ) → List Call → StorageMonitor → List (Call × ℕ) × Workers
unfolding note_running note_done
note_calls callids_running callids_done s =
    let seen = note_running (running_to_process callids_running s) s.callids_running_worker in
    (seen, note_done seen (done_to_process callids_done s) s.monitor.callids_done_worker)

unfoldable pub process_calls : List (Call × ℕ) → List Call → StorageMonitor → StorageMonitor
unfolding mark_each
process_calls callids_running callids_done s =
    let (seen, workers) = note_calls callids_running callids_done s in
    let m = s.monitor in
    record s {
      monitor =
          mark_each s.present_jobs s.job_chunksize workers
            (record m { callids_done_worker = workers });
      callids_running_worker = seen;
      callids_running_processed =
          s.callids_running_processed ++ running_to_process callids_running s;
      callids_done_processed = s.callids_done_processed ++ done_to_process callids_done s;
    }

unfoldable pub generate_tokens : List (Call × ℕ) → List Call → StorageMonitor → StorageMonitor
unfolding process_calls
generate_tokens callids_running callids_done s =
    if not s.monitor.generate_tokens || not s.monitor.should_run
    then s
    else process_calls callids_running callids_done s

-- ===== src/Monitor/Polls.antt =====
-- The tokens of the storage monitor.
use lithops.Base.{
  ℕ, ◌+◌, ◌≡◌, refl, ◌∙◌, Bool, true, false, not, ◌||◌, List, [], ◌∷◌, arith, if◌then◌else◌, length,
}
use lithops.Monitor.Tokens.{
  Call, Workers, Monitor, StorageMonitor, mark_done, mark_each, generate_tokens, has_id,
  process_calls, note_calls,
}
use lithops.Monitor.Counts.{AllOnce, Counted, mark_done-Counted}

if_each :
    {A : Type 0} (P : A → Type 0) (b : Bool) (x y : A)
    → (b ≡ true → P x)
    → (b ≡ false → P y)
    → P (if b then x else y)
if_each P true x y f g = f refl
if_each P false x y f g = g refl

mark_done_run :
    (worker chunksize : ℕ) (m : Monitor) → (mark_done worker chunksize m).should_run ≡ m.should_run
unfolding mark_done
mark_done_run worker chunksize m = ground arith

mark_each-Counted :
    (before : ℕ) (jobs : List ℕ) (size : ℕ → ℕ) (d : Workers) (m : Monitor)
    → m.should_run ≡ true
    → Counted before m
    → Counted before (mark_each jobs size d m)
unfolding mark_each
mark_each-Counted before jobs size [] m run counted = counted
mark_each-Counted before jobs size ((w, []) ∷ rest) m run counted =
    mark_each-Counted before jobs size rest m run counted
mark_each-Counted before jobs size ((w, c ∷ cs) ∷ rest) m run counted =
    let there = mark_done w (size c.job) m in
    if_each
      (λ x. (x.should_run ≡ true) × Counted before x → Counted before (mark_each jobs size rest x))
      (has_id c.job jobs) there m (λ e h. mark_each-Counted before jobs size rest there h.0 h.1)
      (λ e h. mark_each-Counted before jobs size rest m h.0 h.1)
      (if_each (λ x. (x.should_run ≡ true) × Counted before x) (has_id c.job jobs) there m
        (λ e. (
          mark_done_run w (size c.job) m ∙ run,
          mark_done-Counted before w (size c.job) m run counted,
        ))
        (λ e. (run, counted)))

process_calls-Counted :
    (before : ℕ) (callids_running : List (Call × ℕ)) (callids_done : List Call) (s : StorageMonitor)
    → s.monitor.should_run ≡ true
    → Counted before s.monitor
    → Counted before (process_calls callids_running callids_done s).monitor
unfolding process_calls
process_calls-Counted before callids_running callids_done s run counted =
    let workers = (note_calls callids_running callids_done s).1 in
    let m = s.monitor in
    mark_each-Counted before s.present_jobs s.job_chunksize workers
      (record m { callids_done_worker = workers }) run counted

-- If one token was made for each worker that is done, and no worker is done twice, then this is
-- still so after a poll of the storage.
pub generate_tokens_once :
    (before : ℕ) (callids_running : List (Call × ℕ)) (callids_done : List Call) (s : StorageMonitor)
    → Counted before s.monitor
    → let m = (generate_tokens callids_running callids_done s).monitor in
      (m.token_bucket_q ≡ before + length m.workers_done) × AllOnce m.workers_done
unfolding generate_tokens
generate_tokens_once before callids_running callids_done s counted =
    if_each (λ x. Counted before x.monitor)
      (not s.monitor.generate_tokens || not s.monitor.should_run) s
      (process_calls callids_running callids_done s) (λ off. counted)
      (λ on. process_calls-Counted before callids_running callids_done s (ground arith) counted)

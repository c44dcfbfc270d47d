-- ===== src/Wait/Loop.antt =====
-- `wait` of lithops/wait.py, for futures of one executor. Between two rounds the job monitor, a
-- thread of its own, may mark futures; the timeout and the progress bar are left out.
use lithops.Base.{ℕ, zero, suc, ◌+◌, Bool, List, [], ◌∷◌, map, if◌then◌else◌, length, ◌==◌}
use lithops.Future.{State, Storage}
use lithops.Wait.Check.{ReturnWhen, always, fs_not_done, check_done}
use lithops.Wait.Round.{Raised, nothing, exception, another, Tracked, get_executor_data}

-- How a wait ends, with the futures as they are then.
pub data Waited (V E : Type 0) : Type 0 where
  completed : List (Tracked V E) → Waited V E
  failed : Raised E → List (Tracked V E) → Waited V E
  out_of_fuel : List (Tracked V E) → Waited V E

abbrev pub states : {V E : Type 0} → List (Tracked V E) → List State
states fs = map (λ f. f.future.state) fs

module _ {V E : Type 0} (fuel retries : ℕ) (download_results throw_except : Bool)
    (storages : ℕ → Storage V E) (made : ℕ → Tracked V E)
    -- What the monitor marks before the n-th round.
    (marked : ℕ → List (Tracked V E) → List (Tracked V E)) where
  abbrev pub round : ℕ → List (Tracked V E) → Raised E × List (Tracked V E)
  round n fs =
      get_executor_data fuel retries download_results throw_except storages made (marked n fs)

  -- `while not _check_done(fs, return_when, download_results)`
  unfoldable pub wait_rounds : ℕ → ℕ → ReturnWhen → List (Tracked V E) → Waited V E
  unfolding check_done get_executor_data
  wait_rounds zero n return_when fs = out_of_fuel fs
  wait_rounds (suc rounds) n return_when fs =
      let (raised, gs) = round n fs in
      let rest = wait_rounds rounds (n + 1) return_when gs in
      if check_done (states fs) return_when download_results then completed fs else elim raised [
        | nothing ↦ rest
        | exception e ↦ failed (exception e) gs
        | another ↦ failed another gs
      ]

  abbrev pub once : Raised E × List (Tracked V E) → Waited V E
  once (nothing, gs) = completed gs
  once (exception e, gs) = failed (exception e) gs
  once (another, gs) = failed another gs

  unfoldable pub wait : ℕ → ReturnWhen → List (Tracked V E) → Waited V E
  unfolding wait_rounds fs_not_done
  wait rounds return_when [] = completed []
  wait rounds return_when (f ∷ fs) =
      let loop = wait_rounds rounds 0 return_when (f ∷ fs) in
      if length (fs_not_done download_results (states (f ∷ fs))) == 0
      then completed (f ∷ fs)
      else elim return_when [ always ↦ once (round 0 (f ∷ fs)) | _ ↦ loop ]

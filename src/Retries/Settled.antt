-- ===== src/Retries/Settled.antt =====
-- The end of the loop of `wait`.
use lithops.Base.{ℕ, ◌+◌, ◌-◌, ◌≤◌, ◌≡◌, some, List, [], ◌∷◌, length}
use lithops.Wait.{all_completed}
use lithops.Retries.Wait.{Executor, RetryingFuture, Round, wait}
use lithops.Retries.Lookup.{AllKnown, responses}

-- How often the calls may still be made again.
abbrev pub budget : List RetryingFuture → ℕ
budget [] = 0
budget (f ∷ fs) = (f.retries - f.failure_count) + budget fs

module _ {S : Type 0} (ex : Executor S) where
  -- What a round has done with `count` futures of the first round r.
  record Went (r r' : Round S) (count : ℕ) : Type 0 where
    size : length r'.all ≡ length r.all
    known : AllKnown r'.lookup (length r'.all) (responses r'.all)
    keeps :
        (rfs : List ℕ)
        → AllKnown r.lookup (length r.all) rfs
        → AllKnown r'.lookup (length r'.all) rfs
    spent : length r'.pending + budget r'.all ≤ length r.pending + budget r.all
    sorted : length r'.done + length r'.pending ≡ length r.done + length r.pending + count

  -- The executor waits for all, does not raise, and adds no futures.
  abbrev pub WaitsForAll : Type 0
  WaitsForAll = (rs : List ℕ) (s : S) → (s' : S) × (ex.wait all_completed rs s ≡ some (rs, [], s'))

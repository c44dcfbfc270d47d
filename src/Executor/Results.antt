-- ===== src/Executor/Results.antt =====
-- What `get_result` reads of the executor's own futures.
use lithops.Base.{
  suc, ◌≡◌, ◌≢◌, ◌⊎◌, refl, ap, ◌∙◌, Bool, true, false, ◌||◌, Option, List, [], ◌∷◌, count_if,
  length, Bool-cases, inl, inr, arith,
}
use lithops.Future.{Future, Outcome, Output, result}
use lithops.Wait.{Tracked, Raised, nothing, exception, another, raised_by}
use lithops.Executor.Calls.{Setting, to_read, read_results}

module _ {V E : Type 0} (set : Setting V E) (throw_except : Bool) where
  abbrev to_read_of : Tracked V E → Bool
  to_read_of f = to_read set false f.future

  -- The future is passed over.
  read_past :
      (f : Tracked V E) (fs : List (Tracked V E))
      → to_read_of f ≡ false
      → read_results set throw_except false (f ∷ fs)
        ≡ (let (r, outs, gs) = read_results set throw_except false fs in (r, outs, f ∷ gs))
  unfolding read_results
  read_past f fs past = rw past refl

  AllRead : List (Tracked V E) → Type 0
  AllRead [] = Unit
  AllRead (f ∷ fs) = (to_read_of f ≡ false) × AllRead fs

  read_results-AllRead :
      (fs : List (Tracked V E))
      → AllRead fs
      → read_results set throw_except false fs ≡ (nothing, [], fs)
  unfolding AllRead read_results
  read_results-AllRead [] h = refl
  read_results-AllRead (f ∷ fs) (past, h) =
      read_past f fs past ∙ rw (read_results-AllRead fs h) refl

  abbrev outcome_of : Tracked V E → Outcome E (Option (Output V)) × Future V E
  outcome_of f = result set.fuel set.retries throw_except (set.storages f.call) f.future

  -- The future is read.
  read_here :
      (f : Tracked V E) (fs : List (Tracked V E))
      → to_read_of f ≡ true
      → raised_by (outcome_of f).0 ≡ nothing
      → (g : Tracked V E) × (to_read_of g ≡ false)
        × (read_results set throw_except false (f ∷ fs) ≡ (
            let (r, outs, gs) = read_results set throw_except false fs in
            (r, (outcome_of f).0 ∷ outs, g ∷ gs)))
  unfolding read_results
  read_here f fs here fine =
      let g = (outcome_of f).1 in
      (record f { future = record g { read = g.read || true } }, ground arith, rw (here, fine) refl)

  -- Reading it raises.
  read_raises :
      (f : Tracked V E) (fs : List (Tracked V E)) (raised : Raised E)
      → to_read_of f ≡ true
      → raised_by (outcome_of f).0 ≡ raised
      → raised ≢ nothing
      → (read_results set throw_except false (f ∷ fs)).0 ≢ nothing
  unfolding read_results
  read_raises f fs nothing here raises fails = absurd (fails refl)
  read_raises f fs (exception e) here raises fails = λ fine. ground (arith, fine, here, raises)
  read_raises f fs another here raises fails = λ fine. ground (arith, fine, here, raises)

  -- Where nothing was raised, a result came for each future to read, and all are read by then.
  Reads :
      List (Tracked V E)
      → Raised E × List (Outcome E (Option (Output V))) × List (Tracked V E)
      → Type 0
  Reads fs r = r.0 ≡ nothing → (length r.1 ≡ count_if to_read_of fs) × AllRead r.2

  Raised-cases : (r : Raised E) → (r ≡ nothing) ⊎ (r ≢ nothing)
  Raised-cases nothing = inl refl
  Raised-cases (exception e) = inr (λ h. cc)
  Raised-cases another = inr (λ h. cc)

  read_results_lem : (fs : List (Tracked V E)) → Reads fs (read_results set throw_except false fs)
  unfolding Reads AllRead read_results
  read_results_lem [] = λ fine. (refl, tt)
  read_results_lem (f ∷ fs) =
      let rest = read_results_lem fs in
      elim (Bool-cases (to_read_of f)) [
        | inr past ↦
            rw (read_past f fs past)
              (λ fine. let (n, all) = rest fine in (rw (count_if, past) n, (past, all)))
        | inl here ↦ elim (Raised-cases (raised_by (outcome_of f).0)) [
          | inr raises ↦ λ fine. absurd (read_raises f fs _ here refl raises fine)
          | inl fine_here ↦
              let (g, read, e) = read_here f fs here fine_here in
              rw e
                (λ fine. let (n, all) = rest fine in (rw (count_if, here) (ap suc n), (read, all)))
        ]
      ]

  -- If reading the executor's own futures raises nothing, there are as many results as there were
  -- futures with a result of their own that was not read, and from the futures as they are then
  -- nothing more is read.
  pub read_results-once :
      (fs : List (Tracked V E))
      → (read_results set throw_except false fs).0 ≡ nothing
      → (let (r, outs, gs) = read_results set throw_except false fs in
          (length outs ≡ count_if (λ f. to_read set false f.future) fs)
          × (read_results set throw_except false gs ≡ (nothing, [], gs)))
  unfolding Reads
  read_results-once fs fine =
      let (n, all) = read_results_lem fs fine in (n, read_results-AllRead _ all)

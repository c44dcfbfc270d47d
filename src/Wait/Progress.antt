-- ===== src/Wait/Progress.antt =====
-- A round of a wait only takes futures on.
use lithops.Base.{
  ℕ, zero, suc, ◌+◌, ◌≤◌, ◌≡◌, refl, Bool, false, List, [], ◌∷◌, ◌++◌, map, arith, Bool-cases,
  Option-cases, inl, inr, max, ◌-◌,
}
use lithops.Future.{
  State, Future, Storage, Outcome, returned, reraised, value_error, key_error, no_result, blocked,
  status, result, poll_output, load_output, finish_result, after_status, take_new_futures,
}
use lithops.Future.Lifecycle.{rank, rank-status}
use lithops.Wait.Round.{
  Raised, nothing, exception, another, add_new, Tracked, waited_on, get_one, get_each,
  get_executor_data,
}

rank_le : (s : State) → rank s ≤ 5
rank_le s = ground arith

module _ {V E : Type 0} where
  rank-poll_output :
      (left : ℕ) (storage : Storage V E) (f : Future V E)
      → (poll_output left storage f).1.state ≡ f.state
  unfolding poll_output
  rank-poll_output zero storage f = refl
  rank-poll_output (suc left) storage f =
      let g = record f { output_query_count = f.output_query_count + 1 } in
      elim (Option-cases (storage.get_call_output f.output_query_count)) [
        | inl unknown_yet ↦ rw (unknown_yet, poll_output) (rank-poll_output left storage g)
        | inr (v, there) ↦ rw (there, poll_output) refl
      ]

  rank-load_output :
      (retries : ℕ) (throw_except : Bool) (storage : Storage V E) (f : Future V E)
      → rank f.state ≤ rank (load_output retries throw_except storage f).1.state
  unfolding load_output
  rank-load_output retries throw_except storage f =
      ground (
        arith,
        rank_le f.state,
        rank-poll_output (max 1 (retries - f.output_query_count)) storage f,
      )

  rank-finish_result :
      (retries : ℕ) (throw_except : Bool) (storage : Storage V E) (f : Future V E)
      → rank f.state ≤ rank (finish_result retries throw_except storage f).1.state
  unfolding finish_result
  rank-finish_result retries throw_except storage f =
      ground
        (arith, rank_le f.state, rank-load_output retries throw_except storage (take_new_futures f))

  rank-after_status :
      (retries : ℕ) (throw_except : Bool) (storage : Storage V E) (outcome : Outcome E _)
      (f : Future V E)
      → rank f.state ≤ rank (after_status retries throw_except storage outcome f).1.state
  unfolding after_status
  rank-after_status retries throw_except storage (returned cs) f =
      rank-finish_result retries throw_except storage f
  rank-after_status retries throw_except storage (reraised e) f = omega arith
  rank-after_status retries throw_except storage value_error f = omega arith
  rank-after_status retries throw_except storage key_error f = omega arith
  rank-after_status retries throw_except storage no_result f = omega arith
  rank-after_status retries throw_except storage blocked f = omega arith

  rank-result :
      (fuel retries : ℕ) (throw_except : Bool) (storage : Storage V E) (f : Future V E)
      → rank f.state ≤ rank (result fuel retries throw_except storage f).1.state
  unfolding result
  rank-result fuel retries throw_except storage f =
      let (outcome, g) = status fuel throw_except false storage f in
      ground (
        arith,
        rank-status fuel throw_except false storage f,
        rank-after_status retries throw_except storage outcome g,
      )

  rank-get_one :
      (fuel retries : ℕ) (download_results throw_except : Bool) (storage : Storage V E)
      (f : Future V E)
      → rank f.state ≤ rank (get_one fuel retries download_results throw_except storage f).1.state
  unfolding get_one
  rank-get_one fuel retries download_results throw_except storage f = ground (
    arith,
    rank-status fuel throw_except false storage f,
    rank-result fuel retries throw_except storage f,
  )

  -- The futures of the first list are the first of the second, none taken back.
  abbrev pub AllGrown : List (Tracked V E) → List (Tracked V E) → Type 0
  AllGrown [] gs = Unit
  AllGrown (f ∷ fs) [] = ⊥
  AllGrown (f ∷ fs) (g ∷ gs) =
      (f.call ≡ g.call) × (rank f.future.state ≤ rank g.future.state) × AllGrown fs gs

  AllGrown-append : (fs gs hs : List (Tracked V E)) → AllGrown fs gs → AllGrown fs (gs ++ hs)
  AllGrown-append [] gs hs h = tt
  AllGrown-append (f ∷ fs) [] hs h = absurd h
  AllGrown-append (f ∷ fs) (g ∷ gs) hs (c, r, h) = (c, r, AllGrown-append fs gs hs h)

  AllGrown-add_new :
      (raised : Raised E) (fs gs hs : List (Tracked V E))
      → AllGrown fs gs
      → AllGrown fs (add_new raised gs hs).1
  AllGrown-add_new nothing fs gs hs h = AllGrown-append fs gs hs h
  AllGrown-add_new (exception e) fs gs hs h = h
  AllGrown-add_new another fs gs hs h = h

  AllGrown-get_each :
      (fuel retries : ℕ) (download_results throw_except : Bool) (storages : ℕ → Storage V E)
      (all_futures fs : List (Tracked V E))
      → AllGrown fs (get_each fuel retries download_results throw_except storages all_futures fs).1
  unfolding get_each
  AllGrown-get_each fuel retries download_results throw_except storages all_futures [] = tt
  AllGrown-get_each fuel retries download_results throw_except storages all_futures (f ∷ fs) =
      let rest =
        AllGrown-get_each fuel retries download_results throw_except storages all_futures fs in
      let grown =
        rank-get_one fuel retries download_results throw_except (storages f.call) f.future in
      elim (Bool-cases (waited_on download_results all_futures f)) [
        | inl now ↦ rw now (refl, grown, rest)
        | inr not_now ↦ rw not_now (refl, (omega arith), rest)
      ]

  -- A round of a wait, whether or not an exception leaves it, keeps its futures in order, with none
  -- of them taken back; what it adds comes behind them.
  pub AllGrown-get_executor_data :
      (fuel retries : ℕ) (download_results throw_except : Bool) (storages : ℕ → Storage V E)
      (made : ℕ → Tracked V E) (fs : List (Tracked V E))
      → AllGrown fs
          (get_executor_data fuel retries download_results throw_except storages made fs).1
  unfolding get_executor_data
  AllGrown-get_executor_data fuel retries download_results throw_except storages made fs =
      let (raised, gs, new_futures) =
        get_each fuel retries download_results throw_except storages fs fs in
      let grown = AllGrown-get_each fuel retries download_results throw_except storages fs fs in
      AllGrown-add_new raised fs gs (map made new_futures) grown

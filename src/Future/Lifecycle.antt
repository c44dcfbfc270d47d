-- ===== src/Future/Lifecycle.antt =====
-- What `status` and `result` do to the state of a future.
use lithops.Base.{
  ℕ, zero, suc, ◌≤◌, ◌≡◌, refl, sym, ◌∙◌, Bool, false, none, some, arith, inl, inr, Option-cases,
}
use lithops.Future.Fields.{
  State, new, invoked, running, ready, success, error, done, unknown, CallStatus, Future,
  is_success, is_done,
}
use lithops.Future.Query.{Storage, query_status, poll_status, process_status, status}

-- How far a call has come.
abbrev pub rank : State → ℕ
rank new = 0
rank invoked = 1
rank running = 2
rank ready = 3
rank success = 4
rank done = 5
rank error = 5
rank unknown = 5

unsettled_rank : (s : State) → is_success s ≡ false → is_done s ≡ false → rank s ≤ 3
unsettled_rank s h k = ground arith

module _ {V E : Type 0} where
  pub poll_none :
      (fuel : ℕ) (storage : Storage V E) (f : Future V E)
      → f.call_status ≡ none
      → poll_status (suc fuel) storage f ≡ poll_status fuel storage (query_status storage f)
  unfolding poll_status
  poll_none fuel storage f e = ground arith

  pub poll_some :
      (fuel : ℕ) (storage : Storage V E) (f : Future V E) {cs : CallStatus V E}
      → f.call_status ≡ some cs
      → poll_status (suc fuel) storage f ≡ some (cs, f)
  unfolding poll_status
  poll_some fuel storage f e = ground arith

  poll_zero : (storage : Storage V E) (f : Future V E) → poll_status 0 storage f ≡ none
  unfolding poll_status
  poll_zero storage f = refl

  poll_status-state :
      (fuel : ℕ) (storage : Storage V E) (f : Future V E) {cs : CallStatus V E} {g : Future V E}
      → poll_status fuel storage f ≡ some (cs, g)
      → g.state ≡ f.state
  poll_status-state zero storage f e = cc (poll_zero storage f)
  poll_status-state (suc fuel) storage f e = elim (Option-cases f.call_status) [
    | inl nothing ↦
        poll_status-state fuel storage (query_status storage f)
          (sym (poll_none fuel storage f nothing) ∙ e)
    | inr (cs, there) ↦ cc (poll_some fuel storage f there)
  ]

  rank-process_status :
      (throw_except : Bool) (cs : CallStatus V E) (f : Future V E)
      → rank f.state ≤ 3
      → rank f.state ≤ rank (process_status throw_except cs f).1.state
  unfolding process_status
  rank-process_status throw_except cs f h = ground arith

  -- A call of `status` never takes a future back, whatever the storage answers.
  pub rank-status :
      (fuel : ℕ) (throw_except check_only : Bool) (storage : Storage V E) (f : Future V E)
      → rank f.state ≤ rank (status fuel throw_except check_only storage f).1.state
  unfolding status
  rank-status fuel throw_except check_only storage f =
      elim (Option-cases (poll_status fuel storage (query_status storage f))) [
        | inl nothing ↦ elim (Option-cases f.call_status) [
          | inl unknown_yet ↦ ground arith
          | inr (cs, there) ↦
              ground (arith, rank-process_status throw_except cs f, unsettled_rank f.state)
        ]
        | inr ((cs, g), polled) ↦ elim (Option-cases f.call_status) [
          | inl unknown_yet ↦ ground (
            arith,
            rank-process_status throw_except cs g,
            unsettled_rank f.state,
            poll_status-state fuel storage (query_status storage f) polled,
          )
          | inr (cs', there) ↦ ground (
            arith,
            rank-process_status throw_except cs g,
            rank-process_status throw_except cs' f,
            unsettled_rank f.state,
            poll_status-state fuel storage (query_status storage f) polled,
          )
        ]
      ]

-- ===== src/Future/Results.antt =====
-- What `result` gives, and when it ends.
use lithops.Base.{
  ℕ, zero, suc, ◌+◌, ◌-◌, ◌<◌, ◌≤◌, ◌≡◌, ◌≢◌, ◌⊎◌, refl, ap, sym, ◌∙◌, Bool, true, false, Option,
  none, some, List, arith, max, Bool-cases, inl, inr, Option-cases,
}
use lithops.Future.Fields.{done, CallStatus, Output, futures, Future, is_new, is_done}
use lithops.Future.Query.{
  Outcome, returned, reraised, value_error, key_error, no_result, blocked, Storage, query_status,
  poll_status, process_status, status, poll_output, load_output, finish_result, after_status,
  result,
}
use lithops.Future.Lifecycle.{poll_none, poll_some}

module _ {V E : Type 0} where
  -- A finished future that gives v: it has no futures of its own, or gives these.
  record IsSettled (v : Option (Output V)) (g : Future V E) : Type 0 where
    over : is_done g.state ≡ true
    gives : g.call_output ≡ v
    own :
        (g.new_futures ≡ none)
        ⊎ ((fs : List ℕ) × (g.new_futures ≡ some fs) × (v ≡ some (futures fs)) × (g.state ≡ done))

  -- The queries of the output change their count alone.
  poll_output_keeps :
      (left : ℕ) (storage : Storage V E) (f : Future V E)
      → let g = (poll_output left storage f).1 in
        (g.new_futures ≡ f.new_futures)
        × (g.call_output ≡ f.call_output)
        × (g.output_query_count ≤ f.output_query_count + left)
  unfolding poll_output
  poll_output_keeps zero storage f = (refl, refl, omega arith)
  poll_output_keeps (suc left) storage f = ground (
    arith,
    poll_output_keeps left storage (record f { output_query_count = f.output_query_count + 1 }),
  )

  load_output-IsSettled :
      (retries : ℕ) (throw_except : Bool) (storage : Storage V E) (f : Future V E)
      (v : Option (Output V)) (g : Future V E)
      → f.new_futures ≡ none
      → f.call_output ≡ none
      → load_output retries throw_except storage f ≡ (returned v, g)
      → IsSettled v g
  unfolding load_output
  load_output-IsSettled retries throw_except storage f v g h k e =
      ground (arith, poll_output_keeps (max 1 (retries - f.output_query_count)) storage f)

  finish_result-IsSettled :
      (retries : ℕ) (throw_except : Bool) (storage : Storage V E) (f : Future V E)
      (v : Option (Output V)) (g : Future V E)
      → finish_result retries throw_except storage f ≡ (returned v, g)
      → IsSettled v g
  unfolding finish_result
  finish_result-IsSettled retries throw_except storage f v g e =
      ground (arith, poll_output_keeps (max 1 (retries - f.output_query_count)) storage f)

  IsSettled-result :
      (fuel retries : ℕ) (throw_except : Bool) (storage : Storage V E) {v : Option (Output V)}
      {g : Future V E}
      → IsSettled v g
      → result fuel retries throw_except storage g ≡ (returned v, g)
  unfolding result
  IsSettled-result fuel retries throw_except storage h = ground arith

  after_status-IsSettled :
      (retries : ℕ) (throw_except : Bool) (storage : Storage V E)
      (outcome : Outcome E (Option (CallStatus V E))) (f : Future V E) (v : Option (Output V))
      (g : Future V E)
      → after_status retries throw_except storage outcome f ≡ (returned v, g)
      → IsSettled v g
  unfolding after_status
  after_status-IsSettled retries throw_except storage (returned cs) f v g e =
      finish_result-IsSettled retries throw_except storage f v g e
  after_status-IsSettled retries throw_except storage (reraised x) f v g e = ground arith
  after_status-IsSettled retries throw_except storage value_error f v g e = ground arith
  after_status-IsSettled retries throw_except storage key_error f v g e = ground arith
  after_status-IsSettled retries throw_except storage no_result f v g e = ground arith
  after_status-IsSettled retries throw_except storage blocked f v g e = ground arith

  result_invoked :
      (fuel retries : ℕ) (throw_except : Bool) (storage : Storage V E) (f : Future V E)
      → is_new f.state ≡ false
      → let r = status fuel throw_except false storage f in
        result fuel retries throw_except storage f
        ≡ after_status retries throw_except storage r.0 r.1
  unfolding result
  result_invoked fuel retries throw_except storage f h = rw h

  result_new :
      (fuel retries : ℕ) (throw_except : Bool) (storage : Storage V E) (f : Future V E)
      → is_new f.state ≡ true
      → result fuel retries throw_except storage f ≡ (value_error, f)
  unfolding result
  result_new fuel retries throw_except storage f h = rw h

  result-IsSettled :
      (fuel retries : ℕ) (throw_except : Bool) (storage : Storage V E) (f : Future V E)
      {v : Option (Output V)} {g : Future V E}
      → result fuel retries throw_except storage f ≡ (returned v, g)
      → IsSettled v g
  result-IsSettled fuel retries throw_except storage f {v} {g} e =
      elim (Bool-cases (is_new f.state)) [
        | inl fresh ↦ ground (arith, result_new fuel retries throw_except storage f fresh)
        | inr old ↦
            after_status-IsSettled retries throw_except storage _ _ v g
              (sym (result_invoked fuel retries throw_except storage f old) ∙ e)
      ]

  poll_found :
      (d fuel : ℕ) (storage : Storage V E) (f : Future V E) {cs : CallStatus V E}
      → d < fuel
      → storage.get_call_status (f.status_query_count + d) ≡ some cs
      → (r : CallStatus V E × Future V E) × (poll_status fuel storage (query_status storage f)
          ≡ some r)
  poll_found d zero storage f h e = absurd (omega arith)
  poll_found zero (suc fuel) storage f h e =
      let now : storage.get_call_status f.status_query_count ≡ some _ =
        ap storage.get_call_status (omega arith) ∙ e in
      (_, poll_some fuel storage (query_status storage f) now)
  poll_found (suc d) (suc fuel) storage f h e =
      elim (Option-cases (storage.get_call_status f.status_query_count)) [
        | inr (cs, now) ↦ (_, poll_some fuel storage (query_status storage f) now)
        | inl nothing ↦
            let later : storage.get_call_status (f.status_query_count + 1 + d) ≡ some _ =
              ap storage.get_call_status (omega arith) ∙ e in
            let (r, found) =
              poll_found d fuel storage (query_status storage f) (omega arith) later in
            (r, poll_none fuel storage (query_status storage f) nothing ∙ found)
      ]

  finish_result_queries :
      (retries : ℕ) (throw_except : Bool) (storage : Storage V E) (f : Future V E)
      → (finish_result retries throw_except storage f).1.output_query_count
        ≤ max (f.output_query_count + 1) retries
  unfolding finish_result
  finish_result_queries retries throw_except storage f =
      ground (arith, poll_output_keeps (max 1 (retries - f.output_query_count)) storage f)

  -- A future that has given its result gives it again, itself unchanged, whatever the storage says
  -- by then.
  pub result_again :
      (fuel retries fuel' retries' : ℕ) (throw_except throw_except' : Bool)
      (storage storage' : Storage V E) (f : Future V E) {v : Option (Output V)} {g : Future V E}
      → result fuel retries throw_except storage f ≡ (returned v, g)
      → result fuel' retries' throw_except' storage' g ≡ (returned v, g)
  result_again fuel retries fuel' retries' throw_except throw_except' storage storage' f e =
      IsSettled-result fuel' retries' throw_except' storage'
        (result-IsSettled fuel retries throw_except storage f e)

  -- If the storage has the call status at the d-th query from now, `status` with fuel above d is
  -- not left waiting.
  pub status_ends :
      (d fuel : ℕ) (throw_except check_only : Bool) (storage : Storage V E) (f : Future V E)
      {cs : CallStatus V E}
      → d < fuel
      → storage.get_call_status (f.status_query_count + d) ≡ some cs
      → (status fuel throw_except check_only storage f).0 ≢ blocked
  unfolding status process_status
  status_ends d fuel throw_except check_only storage f h e =
      let (r, found) = poll_found d fuel storage f h e in
      elim (Option-cases f.call_status) [
        | inl nothing ↦ ground arith
        | inr (cs', there) ↦ ground arith
      ]

-- ===== src/Future/Query.antt =====
-- `status` and `result`. The storage is what it answers to the n-th query of the future.
use lithops.Base.{
  ℕ, zero, suc, ◌+◌, Bool, true, false, not, ◌&&◌, ◌||◌, Option, none, some, List, [], ◌∷◌,
  if◌then◌else◌, is_none, ◌==◌, ◌-◌, max,
}
use lithops.Future.Fields.{
  ready, success, error, done, init, end, CallStatus, Output, value, futures, Future, is_new,
  is_success, is_done,
}

-- What a call gives back or raises; `blocked` is a loop that has run out of fuel, waiting.
pub data Outcome (E A : Type 0) : Type 0 where
  returned : A → Outcome E A
  reraised : E → Outcome E A
  value_error key_error no_result : Outcome E A
  blocked : Outcome E A

pub record Storage (V E : Type 0) : Type 0 where
  pub get_call_status : ℕ → Option (CallStatus V E)
  pub get_call_output : ℕ → Option V

abbrev pub is_init : {V E : Type 0} → Option (CallStatus V E) → Bool
is_init none = true
is_init (some cs) = elim cs.type [ init ↦ true | end ↦ false ]

abbrev pub empty_futures : Option (List ℕ) → Bool
empty_futures none = true
empty_futures (some []) = true
empty_futures (some (f ∷ fs)) = false

module _ {V E : Type 0} where
  -- One query: the answer is kept, and counted.
  abbrev pub query_status : Storage V E → Future V E → Future V E
  query_status storage f = record f {
    call_status = storage.get_call_status f.status_query_count;
    status_query_count = f.status_query_count + 1;
  }

  -- `while self._call_status is None`
  unfoldable pub poll_status : ℕ → Storage V E → Future V E → Option (CallStatus V E × Future V E)
  poll_status zero storage f = none
  poll_status (suc fuel) storage f = elim f.call_status [
    | some cs ↦ some (cs, f)
    | none ↦ poll_status fuel storage (query_status storage f)
  ]

  -- The futures that the call returned, or the absence of output.
  abbrev pub take_futures : CallStatus V E → Future V E → Outcome E (Future V E)
  take_futures cs f =
      if not (is_none cs.new_futures) && empty_futures f.new_futures
      then returned (record f { new_futures = cs.new_futures })
      else elim cs.func_result_size [
        | none ↦ key_error
        | some n ↦ returned (if n == 0 then record f { produce_output = false } else f)
      ]

  abbrev pub take_output : CallStatus V E → Future V E → Future V E
  take_output cs f = elim cs.result [
    | none ↦ f
    | some v ↦ record f { call_output = some (value v) }
  ]

  abbrev pub settle : Future V E → Future V E
  settle f = record f {
    state = if not (is_none f.call_output) || not f.produce_output then done else success;
  }

  -- `status` from where a call status is at hand.
  unfoldable pub process_status :
      Bool → CallStatus V E → Future V E → Outcome E (Option (CallStatus V E)) × Future V E
  process_status throw_except cs f = elim cs.exception [
    | some e ↦
        let failed = record f { state = error; exception = some e } in
        (if throw_except then reraised e else returned none, failed)
    | none ↦ elim (take_futures cs f) [
      | returned g ↦ (returned (some cs), settle (take_output cs g))
      | _ ↦ (key_error, f)
    ]
  ]

  unfoldable pub status :
      (fuel : ℕ) (throw_except check_only : Bool)
      → Storage V E
      → Future V E
      → Outcome E (Option (CallStatus V E)) × Future V E
  unfolding poll_status process_status
  status fuel throw_except check_only storage f =
      if is_new f.state
      then (value_error, f)
      else if is_success f.state || is_done f.state
      then (returned f.call_status, f)
      else if is_init f.call_status
      then (let g = query_status storage f in
          if check_only then (returned g.call_status, g) else elim (poll_status fuel storage g) [
            | none ↦ (blocked, g)
            | some (cs, h) ↦ process_status throw_except cs h
          ])
      else elim f.call_status [ none ↦ (blocked, f) | some cs ↦ process_status throw_except cs f ]

  -- `_set_futures`: an exception of `status` leaves the state.
  unfoldable pub set_futures : ℕ → Storage V E → CallStatus V E → Future V E → Future V E
  unfolding status
  set_futures fuel storage cs f =
      let (outcome, g) = status fuel false false storage (record f { call_status = some cs }) in
      elim outcome [ returned _ ↦ record g { state = ready } | _ ↦ g ]

  -- The first query of the output, and the loop of the retries: at most `left` more.
  unfoldable pub poll_output : ℕ → Storage V E → Future V E → Option V × Future V E
  poll_output zero storage f = (none, f)
  poll_output (suc left) storage f =
      let answer = storage.get_call_output f.output_query_count in
      let g = record f { output_query_count = f.output_query_count + 1 } in
      let rest = poll_output left storage g in elim answer [ some v ↦ (some v, g) | none ↦ rest ]

  -- `result` behind its call of `status`. A loop `while call_output is None and count < retries`
  -- follows one query, so there are retries - count queries, and one at least.
  unfoldable pub load_output :
      (retries : ℕ) (throw_except : Bool)
      → Storage V E
      → Future V E
      → Outcome E (Option (Output V)) × Future V E
  unfolding poll_output
  load_output retries throw_except storage f =
      let (answer, g) = poll_output (max 1 (retries - f.output_query_count)) storage f in
      elim answer [
        | some v ↦
            (returned (some (value v)), record g { call_output = some (value v); state = done })
        | none ↦
            if throw_except then (no_result, g) else (returned none, record g { state = error })
      ]

  abbrev pub take_new_futures : Future V E → Future V E
  take_new_futures f = elim f.new_futures [
    | none ↦ f
    | some fs ↦ record f { call_output = some (futures fs); state = done }
  ]

  unfoldable pub finish_result :
      (retries : ℕ) (throw_except : Bool)
      → Storage V E
      → Future V E
      → Outcome E (Option (Output V)) × Future V E
  unfolding load_output
  finish_result retries throw_except storage f =
      let g = take_new_futures f in
      if is_done g.state then (returned g.call_output, g) else elim g.call_output [
        | some out ↦ (returned (some out), record g { state = done })
        | none ↦ load_output retries throw_except storage g
      ]

  -- An exception of `status` is passed on.
  unfoldable pub after_status :
      (retries : ℕ) (throw_except : Bool)
      → Storage V E
      → Outcome E (Option (CallStatus V E))
      → Future V E
      → Outcome E (Option (Output V)) × Future V E
  unfolding finish_result
  after_status retries throw_except storage (returned cs) g =
      finish_result retries throw_except storage g
  after_status retries throw_except storage (reraised e) g = (reraised e, g)
  after_status retries throw_except storage value_error g = (value_error, g)
  after_status retries throw_except storage key_error g = (key_error, g)
  after_status retries throw_except storage no_result g = (no_result, g)
  after_status retries throw_except storage blocked g = (blocked, g)

  unfoldable pub result :
      (fuel retries : ℕ) (throw_except : Bool)
      → Storage V E
      → Future V E
      → Outcome E (Option (Output V)) × Future V E
  unfolding status after_status
  result fuel retries throw_except storage f =
      if is_new f.state
      then (value_error, f)
      else (let (outcome, g) = status fuel throw_except false storage f in
          after_status retries throw_except storage outcome g)

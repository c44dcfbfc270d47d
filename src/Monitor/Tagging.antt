-- ===== src/Monitor/Tagging.antt =====
-- The marks that StorageMonitor of lithops/monitor.py leaves on the futures: running, ready, or timed
-- out. A call is a number, as in a wait; the set of futures is a list, the new ones behind.
use lithops.Base.{
  ℕ, ◌+◌, ◌-◌, ◌/◌, Bool, not, ◌&&◌, ◌||◌, none, some, List, [], ◌∷◌, ◌++◌, map, keep, length, max,
  leb, ◌==◌, if◌then◌else◌, is_none,
}
use lithops.Future.{
  State, CallStatus, init, end, Storage, is_success, is_done, is_ready, is_running, is_invoked,
  set_running, set_ready, set_futures,
}
use lithops.Wait.{Tracked, has_number}

abbrev pub is_over : State → Bool
is_over s = is_ready s || is_success s || is_done s

pub record Tags (V E : Type 0) : Type 0 where
  pub futures : List (Tracked V E)
  pub callids_running_processed_timeout : List ℕ
  pub callids_done_processed_status : List ℕ

-- What a monitor finds elsewhere: the storage, the fuel of `_set_futures`, the futures that calls
-- return, and the futures whose timeout has passed, with the error that is made for them.
pub record Seen (V E : Type 0) : Type 0 where
  pub storages : ℕ → Storage V E
  pub fuel : ℕ
  pub made : ℕ → Tracked V E
  pub timed_out : ℕ → Bool
  pub timeout_error : E

abbrev pub fresh_of : List ℕ → List ℕ → List ℕ
fresh_of calls old = keep (λ c. not (has_number c old)) calls

module _ {V E : Type 0} where
  -- The status of a call that has begun.
  abbrev pub init_status : CallStatus V E
  init_status = record {
    type = init;
    exception = none;
    new_futures = none;
    func_result_size = none;
    result = none;
  }

  abbrev pub timeout_status : E → CallStatus V E
  timeout_status e = record {
    type = end;
    exception = some e;
    new_futures = none;
    func_result_size = none;
    result = none;
  }

  -- Of the future of a call that has begun and is new to the monitor.
  unfoldable pub tag_running : List ℕ → Tracked V E → Tracked V E
  unfolding set_running
  tag_running callids_running_to_process f =
      let s = f.future.state in
      if not (is_running s || is_over s)
        && is_invoked s
        && has_number f.call callids_running_to_process
      then record f { future = set_running init_status f.future }
      else f

  unfoldable pub check_timeout : Seen V E → Tracked V E → Tracked V E
  unfolding set_ready
  check_timeout seen f =
      if is_running f.future.state && not (is_none f.future.call_status) && seen.timed_out f.call
      then record f { future = set_ready (timeout_status seen.timeout_error) f.future }
      else f

  unfoldable pub tag_future_as_running : Seen V E → List ℕ → Tags V E → Tags V E
  unfolding tag_running check_timeout
  tag_future_as_running seen callids_running tags =
      let to_process = fresh_of callids_running tags.callids_running_processed_timeout in
      record tags {
        futures = map (λ f. check_timeout seen (tag_running to_process f)) tags.futures;
        callids_running_processed_timeout = tags.callids_running_processed_timeout ++ to_process;
      }

  -- Is the future asked for? All are if few are left.
  unfoldable pub queried : List ℕ → Tags V E → Tracked V E → Bool
  queried callids_done tags f =
      let n = length tags.futures in
      let few = leb (n - length callids_done) (max 10 (n / 10)) in
      not (is_over f.future.state)
      && (few || has_number f.call (fresh_of callids_done tags.callids_done_processed_status))

  -- get_status, with _check_new_futures: the future, its call if there is a status, and its new
  -- futures.
  unfoldable pub get_status : Seen V E → Tracked V E → Tracked V E × List ℕ × List ℕ
  unfolding set_ready set_futures
  get_status seen f =
      let storage = seen.storages f.call in
      let g = record f.future { status_query_count = f.future.status_query_count + 1 } in
      elim (storage.get_call_status f.future.status_query_count) [
        | none ↦ (record f { future = g }, [], [])
        | some cs ↦ elim cs.new_futures [
          | none ↦ (record f { future = set_ready cs g }, f.call ∷ [], [])
          | some ns ↦ (record f { future = set_futures seen.fuel storage cs g }, f.call ∷ [], ns)
        ]
      ]

  unfoldable pub tag_each :
      Seen V E → (Tracked V E → Bool) → List (Tracked V E) → List (Tracked V E) × List ℕ × List ℕ
  unfolding get_status
  tag_each seen asked [] = ([], [], [])
  tag_each seen asked (f ∷ fs) =
      let (gs, processed, new_futures) = tag_each seen asked fs in
      let (g, here, new_here) = get_status seen f in
      if asked f
      then (g ∷ gs, here ++ processed, new_here ++ new_futures)
      else (f ∷ gs, processed, new_futures)

  unfoldable pub tag_future_as_ready : Seen V E → List ℕ → Tags V E → Tags V E
  unfolding queried tag_each
  tag_future_as_ready seen callids_done tags =
      let (gs, processed, new_futures) = tag_each seen (queried callids_done tags) tags.futures in
      record tags {
        futures = gs ++ map seen.made new_futures;
        callids_done_processed_status = tags.callids_done_processed_status ++ processed;
      }

  -- The futures' part of _poll_and_process_job_status.
  unfoldable pub tag_futures : Seen V E → (running done : List ℕ) → Tags V E → Tags V E
  unfolding tag_future_as_running tag_future_as_ready
  tag_futures seen callids_running callids_done tags =
      tag_future_as_ready seen callids_done (tag_future_as_running seen callids_running tags)

  -- add_futures and remove_futures, without the jobs.
  unfoldable pub add_futures : List (Tracked V E) → Tags V E → Tags V E
  add_futures fs tags =
      let old = map (λ f. f.call) tags.futures in
      record tags { futures = tags.futures ++ keep (λ f. not (has_number f.call old)) fs }

  unfoldable pub remove_futures : List (Tracked V E) → Tags V E → Tags V E
  remove_futures fs tags =
      let gone = map (λ f. f.call) fs in
      record tags { futures = keep (λ f. not (has_number f.call gone)) tags.futures }

  unfoldable pub all_ready : Tags V E → Bool
  all_ready tags = length (keep (λ f. not (is_over f.future.state)) tags.futures) == 0

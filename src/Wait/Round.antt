-- ===== src/Wait/Round.antt =====
-- `_get_executor_data`: the futures that are ready, and what is made of them. The ids of a future's
-- executor, job and call are one number; progress bars are left out.
use lithops.Base.{
  ℕ, Bool, false, not, ◌&&◌, ◌||◌, none, some, List, [], ◌∷◌, ◌++◌, map, keep, ◌==◌, if◌then◌else◌,
}
use lithops.Future.{
  Future, Storage, Outcome, returned, reraised, value_error, key_error, no_result, blocked, status,
  result, is_success, is_done, is_ready,
}

pub record Tracked (V E : Type 0) : Type 0 where
  pub call : ℕ
  pub future : Future V E

abbrev pub has_number : ℕ → List ℕ → Bool
has_number n [] = false
has_number n (m ∷ ms) = n == m || has_number n ms

-- What `get_result` or `get_status` raised; their results are not looked at.
pub data Raised (E : Type 0) : Type 0 where
  nothing : Raised E
  exception : E → Raised E
  another : Raised E

abbrev pub raised_by : {E A : Type 0} → Outcome E A → Raised E
raised_by (returned a) = nothing
raised_by (reraised e) = exception e
raised_by value_error = another
raised_by key_error = another
raised_by no_result = another
raised_by blocked = another

-- The first one counts: `list(pool.map(...))`.
abbrev pub or_raised : {E : Type 0} → Raised E → Raised E → Raised E
or_raised nothing r = r
or_raised (exception e) r = exception e
or_raised another r = another

module _ {V E : Type 0} where
  abbrev pub done_ids : Bool → List (Tracked V E) → List ℕ
  done_ids download_results fs =
      map (λ f. f.call)
        (keep (λ f. let s = f.future.state in is_ready s || (download_results && is_success s)) fs)

  abbrev pub not_done_ids : Bool → List (Tracked V E) → List ℕ
  not_done_ids download_results fs =
      map (λ f. f.call)
        (keep
          (λ f.
            let s = f.future.state in not (is_done s) && (download_results || not (is_success s)))
          fs)

  -- Is the call of a future among `new_callids_done`?
  unfoldable pub waited_on : Bool → List (Tracked V E) → Tracked V E → Bool
  waited_on download_results fs f =
      has_number f.call (done_ids download_results fs)
      && has_number f.call (not_done_ids download_results fs)

  -- get_result and get_status
  unfoldable pub get_one :
      (fuel retries : ℕ) (download_results throw_except : Bool)
      → Storage V E
      → Future V E
      → Raised E × Future V E
  unfolding status result
  get_one fuel retries download_results throw_except storage f =
      if download_results
      then (let (out, g) = result fuel retries throw_except storage f in (raised_by out, g))
      else (let (out, g) = status fuel throw_except false storage f in (raised_by out, g))

  -- Each future that is waited on; `storages` tells the storage's answers for a call, and
  -- `all_futures` is the list as it was. The futures of the calls themselves come with it.
  unfoldable pub get_each :
      (fuel retries : ℕ) (download_results throw_except : Bool)
      → (ℕ → Storage V E)
      → (all_futures fs : List (Tracked V E)) → Raised E × List (Tracked V E) × List ℕ
  unfolding get_one waited_on
  get_each fuel retries download_results throw_except storages all_futures [] = (nothing, [], [])
  get_each fuel retries download_results throw_except storages all_futures (f ∷ fs) =
      let (raised, gs, new_futures) =
        get_each fuel retries download_results throw_except storages all_futures fs in
      let (here, g) =
        get_one fuel retries download_results throw_except (storages f.call) f.future in
      let new_here : List ℕ = elim g.new_futures [ none ↦ [] | some ns ↦ ns ] in
      if waited_on download_results all_futures f
      then (or_raised here raised, record f { future = g } ∷ gs, new_here ++ new_futures)
      else (raised, f ∷ gs, new_futures)

  -- The exception leaves the futures as they are by then; otherwise the new ones are added.
  abbrev pub add_new :
      Raised E → List (Tracked V E) → List (Tracked V E) → Raised E × List (Tracked V E)
  add_new nothing fs new_futures = (nothing, fs ++ new_futures)
  add_new (exception e) fs new_futures = (exception e, fs)
  add_new another fs new_futures = (another, fs)

  unfoldable pub get_executor_data :
      (fuel retries : ℕ) (download_results throw_except : Bool)
      → (ℕ → Storage V E)
      → (made : ℕ → Tracked V E) → List (Tracked V E)
      → Raised E × List (Tracked V E)
  unfolding get_each
  get_executor_data fuel retries download_results throw_except storages made fs =
      let (raised, gs, new_futures) =
        get_each fuel retries download_results throw_except storages fs fs in
      add_new raised gs (map made new_futures)

-- ===== src/Monitor/Rounds.antt =====
-- A wait for calls that have ended, with a monitor that marks their futures.
use lithops.Base.{
  ℕ, suc, ◌<◌, ◌≡◌, refl, ap, ◌∙◌, Bool, true, false, ◌||◌, none, List, [], ◌∷◌, map, length,
  length-map, append-nil, Bool-cases, inl, inr, arith, le→leb,
}
use lithops.Future.{Storage, is_success, is_done, status, process_status}
use lithops.Wait.{
  Tracked, has_number, done_ids, not_done_ids, waited_on, get_one, get_each, get_executor_data,
  nothing, all_completed, check_done, fs_not_done, states, Waited, completed, wait_rounds, Raised,
  exception, another, failed,
}
use lithops.Wait.Enough.{check_done_all}
use lithops.Monitor.Tagging.{Tags, Seen, tag_futures}
use lithops.Monitor.Marks.{All, IsPending, IsMarked, IsMarked-tag_futures}

module _ {V E : Type 0} where
  IsSettled : Tracked V E → Type 0
  IsSettled f = is_success f.future.state || is_done f.future.state ≡ true

  abbrev HasCallOf : List ℕ → Tracked V E → Type 0
  HasCallOf calls f = has_number f.call calls ≡ true

  has_more :
      (c : ℕ) (calls : List ℕ) (fs : List (Tracked V E))
      → All (HasCallOf calls) fs
      → All (HasCallOf (c ∷ calls)) fs
  has_more c calls [] h = tt
  has_more c calls (f ∷ fs) (here, h) = (ground (arith, here), has_more c calls fs h)

  has_each : (fs : List (Tracked V E)) → All (HasCallOf (map (λ f. f.call) fs)) fs
  has_each [] = tt
  has_each (f ∷ fs) = (ground arith, has_more f.call (map (λ g. g.call) fs) fs (has_each fs))

  -- All marked futures are waited for.
  done_ids-marked :
      (fs : List (Tracked V E)) → All IsMarked fs → done_ids false fs ≡ map (λ f. f.call) fs
  done_ids-marked [] h = refl
  done_ids-marked (f ∷ fs) (m, h) = rw m.marked (ap (λ l. f.call ∷ l) (done_ids-marked fs h))

  not_done_ids-marked :
      (fs : List (Tracked V E)) → All IsMarked fs → not_done_ids false fs ≡ map (λ f. f.call) fs
  not_done_ids-marked [] h = refl
  not_done_ids-marked (f ∷ fs) (m, h) =
      rw m.marked (ap (λ l. f.call ∷ l) (not_done_ids-marked fs h))

  -- The status of a marked future is taken at once.
  get_one_lem :
      (fuel retries : ℕ) (throw_except : Bool) (storage : Storage V E) (f : Tracked V E)
      → IsMarked f
      → (let (raised, g) = get_one fuel retries false throw_except storage f.future in
          (raised ≡ nothing)
          × (is_success g.state || is_done g.state ≡ true)
          × (g.new_futures ≡ none))
  unfolding get_one status process_status
  get_one_lem fuel retries throw_except storage f m =
      let own = m.no_own in
      let at = m.at_hand in
      let ready_now = m.marked in
      let ended = m.is_end.ended in
      let fine = m.is_end.no_exception in
      let no_futures = m.is_end.no_futures in
      let sized = m.is_end.sized in (ground arith, ground arith, ground arith)

  waited_on-marked :
      (gs fs : List (Tracked V E))
      → All IsMarked gs
      → All (HasCallOf (map (λ f. f.call) gs)) fs
      → All (λ f. waited_on false gs f ≡ true) fs
  unfolding waited_on
  waited_on-marked gs [] h k = tt
  waited_on-marked gs (f ∷ fs) h (here, k) =
      let done : has_number f.call (done_ids false gs) ≡ true =
        ap (has_number f.call) (done_ids-marked gs h) ∙ here in
      let not_done : has_number f.call (not_done_ids false gs) ≡ true =
        ap (has_number f.call) (not_done_ids-marked gs h) ∙ here in
      (rw (waited_on, done, not_done) refl, waited_on-marked gs fs h k)

  IsSettled-get_each :
      (fuel retries : ℕ) (throw_except : Bool) (storages : ℕ → Storage V E)
      (gs fs : List (Tracked V E))
      → All IsMarked fs
      → All (λ f. waited_on false gs f ≡ true) fs
      → (hs : List (Tracked V E)) × (get_each fuel retries false throw_except storages gs fs
          ≡ (nothing, hs, []))
        × All IsSettled hs
        × (length hs ≡ length fs)
  unfolding get_each IsSettled
  IsSettled-get_each fuel retries throw_except storages gs [] h k = ([], refl, tt, refl)
  IsSettled-get_each fuel retries throw_except storages gs (f ∷ fs) (m, h) (w, k) =
      let (hs, e, settled, n) = IsSettled-get_each fuel retries throw_except storages gs fs h k in
      let (fine, over, no_own) = get_one_lem fuel retries throw_except (storages f.call) f m in
      let g = (get_one fuel retries false throw_except (storages f.call) f.future).1 in
      (
        record f { future = g } ∷ hs,
        rw (get_each, e, w, fine, no_own) refl,
        (over, settled),
        ap suc n,
      )

  none_undone :
      (hs : List (Tracked V E)) → All IsSettled hs → length (fs_not_done false (states hs)) ≡ 0
  unfolding IsSettled fs_not_done
  none_undone [] h = refl
  none_undone (f ∷ hs) (s, h) = ground (arith, s, none_undone hs h)

  check_done-settled :
      (hs : List (Tracked V E))
      → 0 < length hs
      → All IsSettled hs
      → check_done (states hs) all_completed false ≡ true
  check_done-settled hs p h =
      let size = length-map (λ f. f.future.state) hs in
      check_done_all (states hs) false (omega (arith, size))
      ∙ le→leb (length (fs_not_done false (states hs))) 0 (omega (arith, none_undone hs h))

  -- A round behind a first poll of the monitor settles all futures.
  round_settles :
      (fuel retries : ℕ) (throw_except : Bool) (made : ℕ → Tracked V E) (seen : Seen V E)
      (gs : List (Tracked V E))
      → All IsMarked gs
      → (hs : List (Tracked V E)) × (get_executor_data fuel retries false throw_except seen.storages
            made gs
          ≡ (nothing, hs))
        × All IsSettled hs
        × (length hs ≡ length gs)
  unfolding get_executor_data
  round_settles fuel retries throw_except made seen gs marked =
      let waited = waited_on-marked gs gs marked (has_each gs) in
      let (hs, e, settled, n) =
        IsSettled-get_each fuel retries throw_except seen.storages gs gs marked waited in
      (hs, rw (get_executor_data, e) (ap (λ l. (nothing, l)) (append-nil hs)), settled, n)

  two_turns :
      (fuel retries rounds : ℕ) (throw_except : Bool) (storages : ℕ → Storage V E)
      (made : ℕ → Tracked V E) (marked : ℕ → List (Tracked V E) → List (Tracked V E))
      (fs : List (Tracked V E)) {hs : List (Tracked V E)}
      → check_done (states fs) all_completed false ≡ false
      → get_executor_data fuel retries false throw_except storages made (marked 0 fs)
        ≡ (nothing, hs)
      → check_done (states hs) all_completed false ≡ true
      → wait_rounds fuel retries false throw_except storages made marked
          (suc (suc rounds))
          0
          all_completed
          fs
        ≡ completed hs
  unfolding wait_rounds
  two_turns fuel retries rounds throw_except storages made marked fs not_yet r over =
      let rest = wait_rounds fuel retries false throw_except storages made marked (suc rounds) 1 in
      let turn : Raised E × List (Tracked V E) → Waited V E = λ p. elim p.0 [
        | nothing ↦ rest all_completed p.1
        | exception e ↦ failed (exception e) p.1
        | another ↦ failed another p.1
      ] in
      rw not_yet (ap turn r ∙ rw over refl)

  -- A wait, without download, for all of some futures that are invoked or running ends within two
  -- turns of its loop, with all of them done, if the storage has the statuses of their calls,
  -- without exceptions and futures of their own, and a monitor that has just started with these
  -- futures, finds none timed out and lists their calls as done has polled before the first round.
  pub wait_rounds-ends :
      (fuel retries rounds : ℕ) (throw_except : Bool) (made : ℕ → Tracked V E) (seen : Seen V E)
      (marked : ℕ → List (Tracked V E) → List (Tracked V E)) (running callids_done : List ℕ)
      (fs : List (Tracked V E))
      → 0 < length fs
      → ((c : ℕ) → seen.timed_out c ≡ false)
      → All (IsPending seen.storages) fs
      → All (λ f. has_number f.call callids_done ≡ true) fs
      → marked 0 fs
        ≡ (tag_futures seen running callids_done (record {
          futures = fs;
          callids_running_processed_timeout = [];
          callids_done_processed_status = [];
        })).futures
      → (hs : List (Tracked V E)) × (wait_rounds fuel retries false throw_except seen.storages made
            marked
            (suc (suc rounds))
            0
            all_completed
            fs
          ≡ completed hs)
        × (check_done (states hs) all_completed false ≡ true)
        × (length hs ≡ length fs)
  unfolding wait_rounds
  wait_rounds-ends fuel retries rounds throw_except made seen marked running callids_done fs full
        in_time pending listed polled =
      let tags : Tags V E = record {
        futures = fs;
        callids_running_processed_timeout = [];
        callids_done_processed_status = [];
      } in
      let (gs, e, all_marked, n) =
        IsMarked-tag_futures seen running callids_done tags in_time refl pending listed in
      let (hs, r, settled, m) = round_settles fuel retries throw_except made seen gs all_marked in
      let now : marked 0 fs ≡ gs = polled ∙ e in
      let over = check_done-settled hs (omega (arith, n, m)) settled in
      elim (Bool-cases (check_done (states fs) all_completed false)) [
        | inl already ↦ (fs, rw (wait_rounds, already) refl, already, refl)
        | inr not_yet ↦
            let turned =
              ap (get_executor_data fuel retries false throw_except seen.storages made) now ∙ r in
            (
              hs,
              two_turns fuel retries rounds throw_except seen.storages made marked fs not_yet turned
                  over,
              over,
              omega (arith, n, m),
            )
      ]

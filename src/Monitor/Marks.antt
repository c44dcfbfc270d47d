-- ===== src/Monitor/Marks.antt =====
-- A wait for calls that have ended, with a monitor that marks their futures.
use lithops.Base.{
  ℕ, suc, ◌+◌, ◌≡◌, refl, ap, ◌∙◌, Bool, true, false, not, ◌&&◌, ◌||◌, none, some, List, [],
  length-map, ◌∷◌, map, length, append-nil, Bool-cases, inl, inr, arith,
}
use lithops.Future.{
  ready, is_running, is_invoked, end, CallStatus, Storage, is_new, set_ready, set_running,
}
use lithops.Wait.{Tracked, has_number}
use lithops.Monitor.Tagging.{
  is_over, Tags, Seen, tag_running, check_timeout, fresh_of, tag_future_as_running, queried,
  get_status, tag_each, tag_future_as_ready, tag_futures,
}

abbrev pub All : {A : Type 0} → (A → Type 0) → List A → Type 0
All P [] = Unit
All P (x ∷ xs) = P x × All P xs

fresh_of-none : (calls : List ℕ) → fresh_of calls [] ≡ calls
fresh_of-none [] = refl
fresh_of-none (c ∷ calls) = ap (λ l. c ∷ l) (fresh_of-none calls)

module _ {V E : Type 0} where
  -- The status of a call that has ended well, without futures of its own.
  pub record IsEnd (cs : CallStatus V E) : Type 0 where
    pub ended : cs.type ≡ end
    pub no_exception : cs.exception ≡ none
    pub no_futures : cs.new_futures ≡ none
    pub size : ℕ
    pub sized : cs.func_result_size ≡ some size

  -- A future that waits for a call whose status is in the storage.
  pub record IsPending (storages : ℕ → Storage V E) (f : Tracked V E) : Type 0 where
    pub cs : CallStatus V E
    pub is_end : IsEnd cs
    pub there : (n : ℕ) → (storages f.call).get_call_status n ≡ some cs
    pub not_over : is_over f.future.state ≡ false
    pub not_new : is_new f.future.state ≡ false
    pub no_own : f.future.new_futures ≡ none

  pub record IsMarked (f : Tracked V E) : Type 0 where
    pub cs : CallStatus V E
    pub is_end : IsEnd cs
    pub at_hand : f.future.call_status ≡ some cs
    pub marked : f.future.state ≡ ready
    pub no_own : f.future.new_futures ≡ none

  -- The marks of a running call leave a future pending.
  IsPending-tag_running :
      (storages : ℕ → Storage V E) (calls : List ℕ) (f : Tracked V E)
      → IsPending storages f
      → IsPending storages (tag_running calls f)
  unfolding tag_running set_running
  IsPending-tag_running storages calls f h =
      let s = f.future.state in
      elim (Bool-cases
        (not (is_running s || is_over s) && is_invoked s && has_number f.call calls)) [
          | inr left ↦ rw (tag_running, left) h
          | inl begun ↦
              rw (tag_running, begun)
                (record {
                  cs = h.cs;
                  is_end = h.is_end;
                  there = h.there;
                  not_over = refl;
                  not_new = refl;
                  no_own = h.no_own;
                })
        ]

  check_timeout-none :
      (seen : Seen V E) (f : Tracked V E)
      → ((c : ℕ) → seen.timed_out c ≡ false)
      → check_timeout seen f ≡ f
  unfolding check_timeout
  check_timeout-none seen f in_time = rw (in_time f.call) (ground arith)

  IsPending-tag_future_as_running :
      (seen : Seen V E) (calls : List ℕ) (fs : List (Tracked V E))
      → ((c : ℕ) → seen.timed_out c ≡ false)
      → All (IsPending seen.storages) fs
      → All (IsPending seen.storages) (map (λ f. check_timeout seen (tag_running calls f)) fs)
  IsPending-tag_future_as_running seen calls [] in_time h = tt
  IsPending-tag_future_as_running seen calls (f ∷ fs) in_time (p, h) = (
    rw (check_timeout-none seen (tag_running calls f) in_time)
        (IsPending-tag_running seen.storages calls f p),
    IsPending-tag_future_as_running seen calls fs in_time h,
  )

  IsMarked-get_status :
      (seen : Seen V E) (f : Tracked V E)
      → IsPending seen.storages f
      → (g : Tracked V E) × (get_status seen f ≡ (g, f.call ∷ [], [])) × IsMarked g
  unfolding get_status set_ready
  IsMarked-get_status seen f h =
      let asked = record f.future { status_query_count = f.future.status_query_count + 1 } in
      (
        record f { future = set_ready h.cs asked },
        ground (arith, h.there f.future.status_query_count, h.is_end.no_futures),
        record { cs = h.cs; is_end = h.is_end; at_hand = refl; marked = refl; no_own = h.no_own },
      )

  IsMarked-tag_each :
      (seen : Seen V E) (asked : Tracked V E → Bool) (fs : List (Tracked V E))
      → All (IsPending seen.storages) fs
      → All (λ f. asked f ≡ true) fs
      → (gs : List (Tracked V E)) × (processed : List ℕ) × (tag_each seen asked fs
          ≡ (gs, processed, []))
        × All IsMarked gs
        × (length gs ≡ length fs)
  unfolding tag_each
  IsMarked-tag_each seen asked [] h k = ([], [], refl, tt, refl)
  IsMarked-tag_each seen asked (f ∷ fs) (p, h) (q, k) =
      let (gs, processed, e, marked, n) = IsMarked-tag_each seen asked fs h k in
      let (g, here, m) = IsMarked-get_status seen f p in
      (g ∷ gs, f.call ∷ processed, rw (tag_each, e, here, q) refl, (m, marked), ap suc n)

  queried-listed :
      (storages : ℕ → Storage V E) (callids_done : List ℕ) (tags : Tags V E) (f : Tracked V E)
      → tags.callids_done_processed_status ≡ []
      → IsPending storages f
      → has_number f.call callids_done ≡ true
      → queried callids_done tags f ≡ true
  unfolding queried
  queried-listed storages callids_done tags f unread p listed =
      let all : fresh_of callids_done tags.callids_done_processed_status ≡ callids_done =
        ap (fresh_of callids_done) unread ∙ fresh_of-none callids_done in
      let here : has_number f.call (fresh_of callids_done tags.callids_done_processed_status)
          ≡ true =
        ap (has_number f.call) all ∙ listed in
      ground (arith, p.not_over, here)

  All-queried :
      (storages : ℕ → Storage V E) (callids_done : List ℕ) (tags : Tags V E)
      (fs : List (Tracked V E))
      → tags.callids_done_processed_status ≡ []
      → All (IsPending storages) fs
      → All (λ f. has_number f.call callids_done ≡ true) fs
      → All (λ f. queried callids_done tags f ≡ true) fs
  All-queried storages callids_done tags [] unread h k = tt
  All-queried storages callids_done tags (f ∷ fs) unread (p, h) (l, k) = (
    queried-listed storages callids_done tags f unread p l,
    All-queried storages callids_done tags fs unread h k,
  )

  listed-tag_running :
      (seen : Seen V E) (calls callids_done : List ℕ) (fs : List (Tracked V E))
      → All (λ f. has_number f.call callids_done ≡ true) fs
      → All
          (λ f. has_number f.call callids_done ≡ true)
          (map (λ f. check_timeout seen (tag_running calls f)) fs)
  unfolding check_timeout tag_running
  listed-tag_running seen calls callids_done [] h = tt
  listed-tag_running seen calls callids_done (f ∷ fs) (l, h) =
      (ground (arith, l), listed-tag_running seen calls callids_done fs h)

  -- A first poll marks all futures.
  pub IsMarked-tag_futures :
      (seen : Seen V E) (running callids_done : List ℕ) (tags : Tags V E)
      → ((c : ℕ) → seen.timed_out c ≡ false)
      → tags.callids_done_processed_status ≡ []
      → All (IsPending seen.storages) tags.futures
      → All (λ f. has_number f.call callids_done ≡ true) tags.futures
      → (gs : List (Tracked V E)) × ((tag_futures seen running callids_done tags).futures ≡ gs)
        × All IsMarked gs
        × (length gs ≡ length tags.futures)
  unfolding tag_futures tag_future_as_running tag_future_as_ready
  IsMarked-tag_futures seen running callids_done tags in_time unread h k =
      let t = tag_future_as_running seen running tags in
      let to_process = fresh_of running tags.callids_running_processed_timeout in
      let pending = IsPending-tag_future_as_running seen to_process tags.futures in_time h in
      let listed = listed-tag_running seen to_process callids_done tags.futures k in
      let asked = All-queried seen.storages callids_done t t.futures unread pending listed in
      let (gs, processed, e, marked, n) =
        IsMarked-tag_each seen (queried callids_done t) t.futures pending asked in
      (gs, rw e (append-nil gs), marked, n ∙ length-map _ tags.futures)

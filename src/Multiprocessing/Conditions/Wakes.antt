-- ===== src/Multiprocessing/Conditions/Wakes.antt =====
-- No process that waits is forgotten.
use lithops.Base.{
  ℕ, ◌<◌, ◌≡◌, ◌≢◌, sym, subst, ap, ◌∙◌, true, none, some, Option-cases, inl, inr, List, [], ◌∷◌,
  ◌++◌, length, arith,
}
use lithops.Redis.{Redis, IsRedis}
use lithops.Multiprocessing.Synchronize.{release_lock}
use lithops.Multiprocessing.Conditions.Defs.{
  Condition, begin_wait, take_token, wake_all, notify, notify_all, Room, NotIn, WaitStep, enqueued,
  notified, all_notified, woken, locked, unlocked, WaitReach, at_start, then_step,
}
use lithops.Multiprocessing.Conditions.Members.{All, All-middle, first-none}
use lithops.Multiprocessing.Conditions.Tokens.{tokens}
use lithops.Multiprocessing.Conditions.Safe.{
  IsSafe, items-release_lock, items-acquire_lock, IsSafe-same,
}
use lithops.Multiprocessing.Conditions.Steps.{
  Told-wake_all, IsSafe-wake_all, IsSafe-wake_first, IsSafe-enqueued, IsSafe-woken,
}

module _ {S : Type 0} (redis : Redis S) (is : IsRedis redis) (c : Condition)
    (apart : c.lock.name ≢ c.notify_handle) where
  IsSafe-WaitStep :
      {r t : Room S} → IsSafe redis is c apart r → WaitStep redis c r t → IsSafe redis is c apart t
  unfolding begin_wait notify notify_all take_token
  IsSafe-WaitStep safe (enqueued r h owned s a b n e) =
      let put = redis.rpush c.notify_handle h r.client in
      let freed = (release_lock redis c.lock (true, put)).1 in
      let same : freed ≡ s = cc in
      subst (λ u. IsSafe redis is c apart (record { client = u; waiting = h ∷ r.waiting })) same
        (IsSafe-same redis is c apart (record { client = put; waiting = h ∷ r.waiting }) freed
          (λ k ne. items-release_lock redis is c apart k true put ne)
          (IsSafe-enqueued redis is c apart r safe h a b n))
  IsSafe-WaitStep safe (notified r s e) =
      subst (λ u. IsSafe redis is c apart (record r { client = u })) (cc)
        (IsSafe-wake_first redis is c apart r safe)
  IsSafe-WaitStep safe (all_notified r s e) =
      subst (λ u. IsSafe redis is c apart (record r { client = u })) (cc)
        (IsSafe-wake_all redis is c apart r safe)
  IsSafe-WaitStep safe (woken r before after h s one e) =
      let popped : (redis.lpop h r.client).1 ≡ s = ground arith in
      subst (λ u. IsSafe redis is c apart (record { client = u; waiting = before ++ after })) popped
        (IsSafe-woken redis is c apart r safe before after h one)
  IsSafe-WaitStep safe (locked r block res owned s e) =
      IsSafe-same redis is c apart r s
        (λ k ne. items-acquire_lock redis is c apart k block res owned r.client s ne e) safe
  IsSafe-WaitStep safe (unlocked r) =
      IsSafe-same redis is c apart r (release_lock redis c.lock (true, r.client)).1
        (λ k ne. items-release_lock redis is c apart k true r.client ne) safe

  IsSafe-WaitReach :
      {r t : Room S} → IsSafe redis is c apart r → WaitReach redis c r t → IsSafe redis is c apart t
  IsSafe-WaitReach safe at_start = safe
  IsSafe-WaitReach safe (then_step reach step) = IsSafe-WaitStep (IsSafe-WaitReach safe reach) step

  take_token-some : (h : ℕ) (s : S) → 0 < tokens redis is h s → take_token redis h s ≢ none
  unfolding take_token
  take_token-some h s some_there = elim (Option-cases (redis.lpop h s).0) [
    | inl nothing ↦
        let empty = ap length (first-none (is.items h s) (sym (is.lpop-first h s) ∙ nothing)) in
        absurd (omega (arith, empty))
    | inr (t, there) ↦ rw (there, take_token) (λ e. cc)
  ]

  -- Of a condition with a lock under a key of its own, on a server whose commands do as documented:
  -- processes wait, each under a new key, are notified, one or all, and woken, in any order. Each
  -- process that waits when all are notified then finds a token under its key and waits no more.
  pub notify_all-wakes :
      (s s' : S) (r : Room S) (before after : List ℕ) (handle : ℕ)
      → is.items c.notify_handle s ≡ []
      → WaitReach redis c (record { client = s; waiting = [] }) r
      → r.waiting ≡ before ++ handle ∷ after
      → notify_all redis c (true, r.client) ≡ some s'
      → take_token redis handle s' ≢ none
  unfolding notify_all
  notify_all-wakes s s' r before after handle new reach one e =
      let start : IsSafe redis is c apart (record { client = s; waiting = [] }) = record {
        told = tt;
        distinct = tt;
        proper = subst (NotIn c.notify_handle) (sym new) tt;
      } in
      let safe = IsSafe-WaitReach start reach in
      let woken_all =
        subst (All (λ h. 0 < tokens redis is h (wake_all redis c r.client))) one
          (Told-wake_all redis is c apart r safe) in
      let there =
        (All-middle (λ h. 0 < tokens redis is h (wake_all redis c r.client)) before after handle
          woken_all).0 in
      let same : wake_all redis c r.client ≡ s' = cc in
      take_token-some handle s' (subst (λ u. 0 < tokens redis is handle u) same there)

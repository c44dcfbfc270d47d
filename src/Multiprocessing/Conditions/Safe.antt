-- ===== src/Multiprocessing/Conditions/Safe.antt =====
-- The invariant of a condition: each process that waits is listed, or has been sent a token.
use lithops.Base.{
  ℕ, ◌≤◌, ◌<◌, ◌≡◌, ◌≢◌, refl, sym, subst, ap, ◌∙◌, Bool, true, false, some, Bool-cases, ◌⊎◌, inl,
  inr, List, leb, pos, negsuc, arith,
}
use lithops.Redis.{Redis, IsRedis}
use lithops.Multiprocessing.Synchronize.{acquire, release, acquire_lock, release_lock}
use lithops.Multiprocessing.Conditions.Defs.{Condition, push_each, wake_all, Room, NotIn}
use lithops.Multiprocessing.Conditions.Members.{has, All, All-map, Distinct, range_of-all}
use lithops.Multiprocessing.Conditions.Tokens.{tokens, same_tokens}

module _ {S : Type 0} (redis : Redis S) (is : IsRedis redis) (c : Condition)
    (apart : c.lock.name ≢ c.notify_handle) where
  abbrev pub listed : S → List ℕ
  listed s = is.items c.notify_handle s

  -- A process that waits is listed, or has been sent a token.
  abbrev pub Told : S → ℕ → Type 0
  Told s h =
      (h ≢ c.notify_handle)
      × (h ≢ c.lock.name)
      × ((has h (listed s) ≡ true) ⊎ (0 < tokens redis is h s))

  pub record IsSafe (r : Room S) : Type 0 where
    pub told : All (Told r.client) r.waiting
    pub distinct : Distinct r.waiting
    pub proper : NotIn c.notify_handle (listed r.client)

  -- Other lists stay as they are when the lock is taken or released.
  pub items-release_lock :
      (k : ℕ) (owned : Bool) (s : S)
      → k ≢ c.lock.name
      → is.items k (release_lock redis c.lock (owned, s)).1 ≡ is.items k s
  unfolding release_lock release
  items-release_lock k owned s ne =
      elim (Bool-cases (leb c.lock.max_value (redis.llen c.lock.name s))) [
        | inl e ↦ rw e refl
        | inr e ↦ rw e (is.rpush_other k c.lock.name 0 s ne)
      ]

  pub items-acquire_lock :
      (k : ℕ) (block res owned : Bool) (s s' : S)
      → k ≢ c.lock.name
      → acquire_lock redis block c.lock (false, s) ≡ some (res, owned, s')
      → is.items k s' ≡ is.items k s
  unfolding acquire_lock acquire
  items-acquire_lock k block res owned s s' ne e =
      let popped = is.lpop_other k c.lock.name s ne in ground (arith, popped)

  pub Told-step :
      (s t : S) (h : ℕ)
      → (h ≢ c.notify_handle
          → has h (listed s) ≡ true
          → (has h (listed t) ≡ true) ⊎ (0 < tokens redis is h t))
      → (h ≢ c.notify_handle → h ≢ c.lock.name → tokens redis is h s ≤ tokens redis is h t)
      → Told s h
      → Told t h
  Told-step s t h kept more (a, b, inl l) = (a, b, kept a l)
  Told-step s t h kept more (a, b, inr n) = (a, b, inr (omega (arith, more a b)))

  -- What leaves every list but the lock's alone keeps the invariant.
  pub IsSafe-same :
      (r : Room S) (s : S)
      → ((k : ℕ) → k ≢ c.lock.name → is.items k s ≡ is.items k r.client)
      → IsSafe r
      → IsSafe (record r { client = s })
  IsSafe-same r s same safe =
      let list = same c.notify_handle (λ e. apart (sym e)) in
      record {
        told =
            All-map r.waiting
              (λ h.
                Told-step r.client s h (λ a l. inl (subst (λ xs. has h xs ≡ true) (sym list) l))
                  (λ a b. omega (arith, same_tokens redis is h r.client s (same h b))))
              safe.told;
        distinct = safe.distinct;
        proper = subst (NotIn c.notify_handle) (sym list) safe.proper;
      }

  pub wake_all_lem :
      (s : S) → wake_all redis c s ≡ push_each redis (listed s) (redis.delete c.notify_handle s)
  unfolding wake_all
  wake_all_lem s =
      ap (λ l. push_each redis l (redis.delete c.notify_handle s))
        (is.lrange-items c.notify_handle (pos 0) (negsuc 0) s
          ∙ range_of-all (is.items c.notify_handle s))

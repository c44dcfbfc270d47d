-- ===== src/Multiprocessing/Conditions/Steps.antt =====
-- What notifies, wakes or begins to wait keeps the invariant.
use lithops.Base.{
  ℕ, ◌<◌, ◌≡◌, ◌≢◌, sym, subst, ap, ◌∙◌, true, Option-cases, inl, inr, List, [], ◌∷◌, ◌++◌, arith,
}
use lithops.Redis.{Redis, IsRedis, rest}
use lithops.Multiprocessing.Conditions.Defs.{
  Condition, push_each, wake_first, wake_all, Room, NotIn,
}
use lithops.Multiprocessing.Conditions.Members.{
  has, All, All-map, All-apart, Distinct, Distinct-middle, All-middle, has-later, has-append,
  has-snoc, NotIn-snoc, first-none, first-rest,
}
use lithops.Multiprocessing.Conditions.Tokens.{
  tokens, key_cases, tokens-rpush_self, same_tokens, tokens-rpush, tokens-push_each, push_each-has,
  items-push_each,
}
use lithops.Multiprocessing.Conditions.Safe.{listed, Told, IsSafe, Told-step, wake_all_lem}

module _ {S : Type 0} (redis : Redis S) (is : IsRedis redis) (c : Condition)
    (apart : c.lock.name ≢ c.notify_handle) (r : Room S) (safe : IsSafe redis is c apart r) where
  -- All that were listed redis is c apart have a token then.
  pub Told-wake_all : All (λ h. 0 < tokens redis is h (wake_all redis c r.client)) r.waiting
  Told-wake_all =
      let s = redis.delete c.notify_handle r.client in
      rw (wake_all_lem redis is c apart r.client) (
        All-map r.waiting
          (λ h (told : Told redis is c apart r.client h). elim told.2 [
            | inl l ↦ push_each-has redis is h (listed redis is c apart r.client) s l
            | inr n ↦
                let same =
                  same_tokens redis is h r.client s
                    (is.delete_other h c.notify_handle r.client told.0) in
                omega
                  (arith, n, same, tokens-push_each redis is h (listed redis is c apart r.client) s)
          ])
          safe.told)

  pub IsSafe-wake_all : IsSafe redis is c apart (record r { client = wake_all redis c r.client })
  IsSafe-wake_all =
      let k = c.notify_handle in
      let d = redis.delete k r.client in
      let t = push_each redis (listed redis is c apart r.client) d in
      let none_listed =
        items-push_each redis is k (listed redis is c apart r.client) d safe.proper
        ∙ is.delete-items k r.client in
      rw (wake_all_lem redis is c apart r.client) (record {
        told =
            All-map r.waiting
              (λ h.
                Told-step redis is c apart r.client t h
                  (λ a l. inr (push_each-has redis is h (listed redis is c apart r.client) d l))
                  (λ a b.
                    let same = same_tokens redis is h r.client d (is.delete_other h k r.client a) in
                    omega (
                      arith,
                      same,
                      tokens-push_each redis is h (listed redis is c apart r.client) d,
                    )))
              safe.told;
        distinct = safe.distinct;
        proper = subst (NotIn k) (sym none_listed) tt;
      })

  IsSafe-unlisted :
      is.items c.notify_handle r.client ≡ []
      → IsSafe redis is c apart (record r { client = (redis.lpop c.notify_handle r.client).1 })
  IsSafe-unlisted none_left =
      let k = c.notify_handle in
      let s = (redis.lpop k r.client).1 in
      let left : is.items k s ≡ [] = is.lpop-items k r.client ∙ ap rest none_left in
      record {
        told =
            All-map r.waiting
              (λ h.
                Told-step redis is c apart r.client s h
                  (λ a l. inl (subst (λ xs. has h xs ≡ true) (none_left ∙ sym left) l))
                  (λ a b.
                    omega
                      (arith, same_tokens redis is h r.client s (is.lpop_other h k r.client a))))
              safe.told;
        distinct = safe.distinct;
        proper = subst (NotIn k) (sym left) tt;
      }

  IsSafe-first :
      (x : ℕ)
      → is.items c.notify_handle r.client ≡ x ∷ rest (is.items c.notify_handle r.client)
      → IsSafe redis is c apart
          (record r { client = redis.rpush x 0 (redis.lpop c.notify_handle r.client).1 })
  IsSafe-first x head =
      let k = c.notify_handle in
      let xs = is.items k r.client in
      let s = (redis.lpop k r.client).1 in
      let t = redis.rpush x 0 s in
      let (ne, proper) = subst (NotIn k) head safe.proper in
      let left : is.items k t ≡ rest xs =
        is.rpush_other k x 0 s (λ e. ne (sym e)) ∙ is.lpop-items k r.client in
      record {
        told =
            All-map r.waiting
              (λ h.
                Told-step redis is c apart r.client t h
                  (λ a l. elim (key_cases redis is x h) [
                    | inl same ↦ inr (rw same (omega (arith, tokens-rpush_self redis is h s)))
                    | inr other ↦ inl (
                        subst (λ ys. has h ys ≡ true) (sym left)
                          (has-later h x (rest xs) other (subst (λ ys. has h ys ≡ true) head l)))
                  ])
                  (λ a b.
                    let same = same_tokens redis is h r.client s (is.lpop_other h k r.client a) in
                    omega (arith, same, tokens-rpush redis is h x s)))
              safe.told;
        distinct = safe.distinct;
        proper = subst (NotIn k) (sym left) proper;
      }

  pub IsSafe-wake_first :
      IsSafe redis is c apart (record r { client = wake_first redis c r.client })
  unfolding wake_first
  IsSafe-wake_first =
      let k = c.notify_handle in
      let head = is.lpop-first k r.client in
      elim (Option-cases (redis.lpop k r.client).0) [
        | inl nothing ↦
            rw (nothing, wake_first)
              (IsSafe-unlisted (first-none (is.items k r.client) (sym head ∙ nothing)))
        | inr (x, there) ↦
            rw (there, wake_first)
              (IsSafe-first x (first-rest (is.items k r.client) (sym head ∙ there)))
      ]

  pub IsSafe-enqueued :
      (h : ℕ)
      → h ≢ c.notify_handle
      → h ≢ c.lock.name
      → NotIn h r.waiting
      → IsSafe redis is c apart
          (record { client = redis.rpush c.notify_handle h r.client; waiting = h ∷ r.waiting })
  IsSafe-enqueued h a b n =
      let k = c.notify_handle in
      let s = redis.rpush k h r.client in
      let list = is.rpush-items k h r.client in
      record {
        told = (
          (a, b, inl (rw list (has-snoc h (is.items k r.client)))),
          All-map r.waiting
              (λ x.
                Told-step redis is c apart r.client s x
                  (λ _ l. inl (rw list (has-append x (is.items k r.client) (h ∷ []) l)))
                  (λ a' _.
                    omega (
                      arith,
                      same_tokens redis is x r.client s (is.rpush_other x k h r.client a'),
                    )))
              safe.told,
        );
        distinct = (n, safe.distinct);
        proper = rw list (NotIn-snoc k h (is.items k r.client) safe.proper a);
      }

  pub IsSafe-woken :
      (before after : List ℕ) (h : ℕ)
      → r.waiting ≡ before ++ h ∷ after
      → IsSafe redis is c apart
          (record { client = (redis.lpop h r.client).1; waiting = before ++ after })
  IsSafe-woken before after h one =
      let s = (redis.lpop h r.client).1 in
      let (told_h, others) =
        All-middle (Told redis is c apart r.client) before after h
          (subst (All (Told redis is c apart r.client)) one safe.told) in
      let (distinct, out) = Distinct-middle before after h (subst Distinct one safe.distinct) in
      let list = is.lpop_other c.notify_handle h r.client (λ e. told_h.0 (sym e)) in
      record {
        told =
            All-apart (before ++ after) out
              (λ x ne.
                Told-step redis is c apart r.client s x
                  (λ _ l. inl (subst (λ xs. has x xs ≡ true) (sym list) l))
                  (λ a b.
                    omega
                      (arith, same_tokens redis is x r.client s (is.lpop_other x h r.client ne))))
              others;
        distinct = distinct;
        proper = subst (NotIn c.notify_handle) (sym list) safe.proper;
      }

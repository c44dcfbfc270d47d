-- ===== src/Multiprocessing/Queues/Items.antt =====
-- The lists under the other keys, when a queue is used and when the waiting are told.
use lithops.Base.{
  ℕ, ◌≡◌, ◌≢◌, refl, sym, subst, ◌∙◌, Bool, Bool-cases, Option-cases, inl, inr, some, pos, negsuc,
  arith,
}
use lithops.Redis.{Redis, IsRedis}
use lithops.Multiprocessing.Conditions.{Condition, NotIn, wake_all}
use lithops.Multiprocessing.Conditions.Members.{range_of-all}
use lithops.Multiprocessing.Conditions.Tokens.{items-push_each}
use lithops.Multiprocessing.Queues.Defs.{Queue, Reply, not_full, send_bytes, recv_bytes, put, get}

module _ {S : Type 0} (redis : Redis S) (is : IsRedis redis) where
  -- All the handles that are told.
  all_handles : (k : ℕ) (s : S) → redis.lrange k (pos 0) (negsuc 0) s ≡ is.items k s
  all_handles k s = is.lrange-items k (pos 0) (negsuc 0) s ∙ range_of-all (is.items k s)

  pub items-wake_all :
      (c : Condition) (k : ℕ) (s : S)
      → NotIn k (is.items c.notify_handle s)
      → is.items k (wake_all redis c s) ≡ is.items k (redis.delete c.notify_handle s)
  unfolding wake_all
  items-wake_all c k s out =
      items-push_each redis is k (redis.lrange c.notify_handle (pos 0) (negsuc 0) s)
        (redis.delete c.notify_handle s) (subst (NotIn k) (sym (all_handles c.notify_handle s)) out)

  pub items-put :
      (q : Queue) (obj k : ℕ) (s : S)
      → k ≢ q.handle
      → is.items k (put redis q obj s).1 ≡ is.items k s
  unfolding put send_bytes
  items-put q obj k s ne = elim (Bool-cases q.closed) [
    | inl e ↦ rw (e, put) refl
    | inr e ↦ elim (Bool-cases (not_full redis q s)) [
      | inl room ↦ rw (e, put, room) (is.rpush_other k q.handle obj s ne)
      | inr full ↦ rw (e, put, full) refl
    ]
  ]

  pub items-get_other :
      (q : Queue) (forever : Bool) (k : ℕ) (s : S) {reply : Reply} {s' : S}
      → k ≢ q.handle
      → get redis forever q s ≡ some (reply, s')
      → is.items k s' ≡ is.items k s
  unfolding get recv_bytes
  items-get_other q forever k s {reply} {s'} ne e =
      let popped = is.lpop_other k q.handle s ne in
      elim (Option-cases (redis.lpop q.handle s).0) [
        | inl none_left ↦ ground arith
        | inr (v, there) ↦ ground arith
      ]

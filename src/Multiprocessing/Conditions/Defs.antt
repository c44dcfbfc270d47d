-- ===== src/Multiprocessing/Conditions/Defs.antt =====
-- Condition of lithops/multiprocessing/synchronize.py. The lock of a condition, which `wait`, `notify`
-- and `notify_all` assert that the process owns, is Synchronize's; the expiry of keys and the timeout of
-- a wait are left out.
use lithops.Base.{
  ℕ, ◌≡◌, ◌≢◌, Bool, true, false, Option, none, some, List, [], ◌∷◌, ◌++◌, if◌then◌else◌, pos,
  negsuc,
}
use lithops.Redis.{Redis}
use lithops.Multiprocessing.Synchronize.{SemLock, acquire_lock, release_lock}

pub record Condition : Type 0 where
  pub lock : SemLock
  pub notify_handle : ℕ

module _ {S : Type 0} (redis : Redis S) where
  -- rpush of each handle's message, in one pipeline.
  unfoldable pub push_each : (handles : List ℕ) → S → S
  push_each [] s = s
  push_each (h ∷ handles) s = push_each handles (redis.rpush h 0 s)

  -- The first half of `wait`, on to the release of the lock; `none` is the failed assertion.
  -- `wait_handle` is a new key.
  unfoldable pub begin_wait :
      (wait_handle : ℕ) → Condition → (owned : Bool) × S → Option ((owned : Bool) × S)
  unfolding release_lock
  begin_wait wait_handle c (owned, s) =
      if owned
      then some (release_lock redis c.lock (owned, redis.rpush c.notify_handle wait_handle s))
      else none

  -- blpop of the own key: `none` goes on waiting.
  unfoldable pub take_token : (wait_handle : ℕ) → S → Option S
  take_token wait_handle s =
      let (token, s') = redis.lpop wait_handle s in elim token [ none ↦ none | some t ↦ some s' ]

  -- The second half of `wait`.
  unfoldable pub end_wait :
      (wait_handle : ℕ) → Condition → (owned : Bool) × S → Option ((owned : Bool) × S)
  unfolding take_token acquire_lock
  end_wait wait_handle c (owned, s) = elim (take_token wait_handle s) [
    | none ↦ none
    | some s1 ↦ elim (acquire_lock redis true c.lock (owned, s1)) [
      | none ↦ none
      | some (res, owned', s2) ↦ some (owned', s2)
    ]
  ]

  -- What `notify` and `notify_all` do with the lists of a condition.
  unfoldable pub wake_first : Condition → S → S
  wake_first c s =
      let (handle, s') = redis.lpop c.notify_handle s in
      elim handle [ none ↦ s' | some h ↦ redis.rpush h 0 s' ]

  unfoldable pub wake_all : Condition → S → S
  unfolding push_each
  wake_all c s =
      let handles = redis.lrange c.notify_handle (pos 0) (negsuc 0) s in
      push_each handles (redis.delete c.notify_handle s)

  unfoldable pub notify : Condition → (owned : Bool) × S → Option S
  unfolding wake_first
  notify c (owned, s) = if owned then some (wake_first c s) else none

  unfoldable pub notify_all : Condition → (owned : Bool) × S → Option S
  unfolding wake_all
  notify_all c (owned, s) = if owned then some (wake_all c s) else none

-- The server, and the keys of the processes that wait.
pub record Room (S : Type 0) : Type 0 where
  pub client : S
  pub waiting : List ℕ

abbrev pub NotIn : ℕ → List ℕ → Type 0
NotIn x [] = Unit {0}
NotIn x (y ∷ ys) = (y ≢ x) × NotIn x ys

-- What processes do, each half of a `wait` being a step; the lock is taken and released besides.
module _ {S : Type 0} (redis : Redis S) (c : Condition) where
  pub data WaitStep : Room S → Room S → Type 0 where
    enqueued :
        (r : Room S) (handle : ℕ) (owned : Bool) (s : S)
        → handle ≢ c.notify_handle
        → handle ≢ c.lock.name
        → NotIn handle r.waiting
        → begin_wait redis handle c (true, r.client) ≡ some (owned, s)
        → WaitStep r (record { client = s; waiting = handle ∷ r.waiting })
    notified :
        (r : Room S) (s : S)
        → notify redis c (true, r.client) ≡ some s
        → WaitStep r (record r { client = s })
    all_notified :
        (r : Room S) (s : S)
        → notify_all redis c (true, r.client) ≡ some s
        → WaitStep r (record r { client = s })
    woken :
        (r : Room S) (before after : List ℕ) (handle : ℕ) (s : S)
        → r.waiting ≡ before ++ handle ∷ after
        → take_token redis handle r.client ≡ some s
        → WaitStep r (record { client = s; waiting = before ++ after })
    locked :
        (r : Room S) (block res owned : Bool) (s : S)
        → acquire_lock redis block c.lock (false, r.client) ≡ some (res, owned, s)
        → WaitStep r (record r { client = s })
    unlocked :
        (r : Room S)
        → WaitStep r (record r { client = (release_lock redis c.lock (true, r.client)).1 })

  pub data WaitReach (v : Room S) : Room S → Type 0 where
    at_start : WaitReach v v
    then_step : {r t : Room S} → WaitReach v r → WaitStep r t → WaitReach v t

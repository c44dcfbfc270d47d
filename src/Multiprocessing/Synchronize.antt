-- ===== src/Multiprocessing/Synchronize.antt =====
-- SemLock, Semaphore, BoundedSemaphore, Lock and RLock of lithops/multiprocessing/synchronize.py. A
-- blocking command that finds nothing waits: its result is `none`. The expiry of keys and the
-- references to them are left out.
use lithops.Base.{
  ℕ, zero, suc, Bool, true, false, not, Option, none, some, leb, if◌then◌else◌, is_none,
}
use lithops.Redis.{Redis}

abbrev pub sem_value_max : ℕ
sem_value_max = 1073741824

pub record SemLock : Type 0 where
  pub name : ℕ
  pub max_value : ℕ

module _ {S : Type 0} (redis : Redis S) where
  -- rpush of `value` empty strings.
  unfoldable pub push_all : ℕ → ℕ → S → S
  push_all name zero s = s
  push_all name (suc value) s = push_all name value (redis.rpush name 0 s)

  -- `name` is a new key.
  unfoldable pub new_sem_lock : (name value max_value : ℕ) → S → SemLock × S
  unfolding push_all
  new_sem_lock name value max_value s =
      (record { name = name; max_value = max_value }, push_all name value s)

  unfoldable pub new_semaphore : (name value : ℕ) → S → SemLock × S
  unfolding new_sem_lock
  new_semaphore name value s = new_sem_lock name value sem_value_max s

  unfoldable pub new_bounded_semaphore : (name value : ℕ) → S → SemLock × S
  unfolding new_sem_lock
  new_bounded_semaphore name value s = new_sem_lock name value value s

  unfoldable pub get_value : SemLock → S → ℕ
  get_value lock s = redis.llen lock.name s

  unfoldable pub acquire : (block : Bool) → SemLock → S → Option (Bool × S)
  acquire block lock s =
      let (token, s') = redis.lpop lock.name s in
      if block
      then elim token [ none ↦ none | some t ↦ some (true, s') ]
      else some (not (is_none token), s')

  -- LUA_RELEASE_SCRIPT, which Redis runs in one step.
  unfoldable pub release : SemLock → S → S
  release lock s =
      if leb lock.max_value (redis.llen lock.name s) then s else redis.rpush lock.name 0 s

  -- A process's own object of a Lock: `owned` is its field.
  unfoldable pub new_lock : (name : ℕ) → S → SemLock × S
  unfolding new_sem_lock
  new_lock name s = new_sem_lock name 1 1 s

  unfoldable pub acquire_lock :
      (block : Bool) → SemLock → (owned : Bool) × S → Option (Bool × (owned : Bool) × S)
  unfolding acquire
  acquire_lock block lock (owned, s) = elim (acquire block lock s) [
    | none ↦ none
    | some (res, s') ↦ some (res, true, s')
  ]

  unfoldable pub release_lock : SemLock → (owned : Bool) × S → (owned : Bool) × S
  unfolding release
  release_lock lock (owned, s) = (false, release lock s)

  unfoldable pub acquire_rlock :
      (block : Bool) → SemLock → (owned : Bool) × S → Option (Bool × (owned : Bool) × S)
  unfolding acquire_lock
  acquire_rlock block lock (true, s) = some (true, true, s)
  acquire_rlock block lock (false, s) = acquire_lock block lock (false, s)

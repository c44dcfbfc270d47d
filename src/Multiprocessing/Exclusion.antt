-- ===== src/Multiprocessing/Exclusion.antt =====
-- Who holds a semaphore.
use lithops.Base.{
  ℕ, zero, suc, ◌+◌, ◌≤◌, ◌<◌, ◌≡◌, refl, ap, ◌∙◌, Bool, true, false, Option, some, List, [], ◌∷◌,
  ◌++◌, length, length-append, lt→leb-false, if◌then◌else◌, is_none, Option-cases, inl, inr, arith,
}
use lithops.Redis.{Redis, IsRedis, first, rest}
use lithops.Multiprocessing.Synchronize.{
  SemLock, push_all, new_sem_lock, get_value, acquire, release, acquire_lock, acquire_rlock,
}

-- The server, and the processes that were told that they have the semaphore and have not released it.
pub record Shared (S : Type 0) : Type 0 where
  pub client : S
  pub holders : List ℕ

module _ {S : Type 0} (redis : Redis S) (lock : SemLock) where
  pub data SemStep : Shared S → Shared S → Type 0 where
    taken :
        (p : Shared S) (i : ℕ) (block : Bool) (s : S)
        → acquire redis block lock p.client ≡ some (true, s)
        → SemStep p (record { client = s; holders = i ∷ p.holders })
    refused :
        (p : Shared S) (s : S)
        → acquire redis false lock p.client ≡ some (false, s)
        → SemStep p (record { client = s; holders = p.holders })
    given :
        (p : Shared S) (before after : List ℕ) (i : ℕ)
        → p.holders ≡ before ++ i ∷ after
        → SemStep p (record { client = release redis lock p.client; holders = before ++ after })

  pub data SemReach (s : Shared S) : Shared S → Type 0 where
    at_start : SemReach s s
    then_step : {t u : Shared S} → SemReach s t → SemStep t u → SemReach s u

module _ {S : Type 0} (redis : Redis S) (is : IsRedis redis) where
  -- A pop that gives something makes the list shorter, and one that gives nothing leaves it empty.
  length-rest : (xs : List ℕ) → length (rest xs) + (if is_none (first xs) then 0 else 1) ≡ length xs
  length-rest [] = omega arith
  length-rest (x ∷ xs) = omega arith

  items_of : SemLock → S → ℕ
  items_of lock s = length (is.items lock.name s)

  items-lpop :
      (lock : SemLock) (s : S)
      → (let (token, s') = redis.lpop lock.name s in
          items_of lock s' + (if is_none token then 0 else 1) ≡ items_of lock s)
  unfolding items_of
  items-lpop lock s =
      let shorter = ap length (is.lpop-items lock.name s) in
      let one : Option ℕ → ℕ = λ o. if is_none o then 0 else 1 in
      let token = ap one (is.lpop-first lock.name s) in
      omega (arith, shorter, token, length-rest (is.items lock.name s))

  items-acquire :
      (block : Bool) (lock : SemLock) (s : S) {res : Bool} {s' : S}
      → acquire redis block lock s ≡ some (res, s')
      → items_of lock s' + (if res then 1 else 0) ≡ items_of lock s
  unfolding acquire
  items-acquire block lock s e =
      let popped = items-lpop lock s in
      elim (Option-cases (redis.lpop lock.name s).0) [
        | inl nothing ↦ ground (arith, popped)
        | inr (t, there) ↦ ground (arith, popped)
      ]

  items-release :
      (lock : SemLock) (s : S)
      → items_of lock s < lock.max_value
      → items_of lock (release redis lock s) ≡ suc (items_of lock s)
  unfolding release items_of
  items-release lock s room =
      let n = is.llen-items lock.name s in
      let few = lt→leb-false lock.max_value (redis.llen lock.name s) (omega arith) in
      rw few (
        ap length (is.rpush-items lock.name 0 s)
        ∙ length-append (is.items lock.name s) (0 ∷ [])
        ∙ omega arith)

  items-push_all :
      (name value : ℕ) (s : S)
      → length (is.items name (push_all redis name value s)) ≡ value + length (is.items name s)
  unfolding push_all
  items-push_all name zero s = omega arith
  items-push_all name (suc value) s =
      let pushed = ap length (is.rpush-items name 0 s) ∙ length-append (is.items name s) (0 ∷ []) in
      omega (arith, items-push_all name value (redis.rpush name 0 s), pushed)

  -- Tokens and holders are as many as the semaphore was made with.
  Balanced : ℕ → SemLock → Shared S → Type 0
  Balanced value lock p = items_of lock p.client + length p.holders ≡ value

  Balanced-SemStep :
      (value : ℕ) (lock : SemLock) {p q : Shared S}
      → value ≤ lock.max_value
      → Balanced value lock p
      → SemStep redis lock p q
      → Balanced value lock q
  unfolding Balanced
  Balanced-SemStep value lock le h (taken p i block s got) =
      omega (arith, items-acquire block lock p.client got)
  Balanced-SemStep value lock le h (refused p s got) =
      omega (arith, items-acquire false lock p.client got)
  Balanced-SemStep value lock le h (given p before after i one) =
      let size = ap length one ∙ length-append before (i ∷ after) in
      let room : items_of lock p.client < lock.max_value = omega (arith, size) in
      omega (arith, size, length-append before after, items-release lock p.client room)

  Balanced-SemReach :
      (value : ℕ) (lock : SemLock) {p q : Shared S}
      → value ≤ lock.max_value
      → Balanced value lock p
      → SemReach redis lock p q
      → Balanced value lock q
  Balanced-SemReach value lock le h at_start = h
  Balanced-SemReach value lock le h (then_step r step) =
      Balanced-SemStep value lock le (Balanced-SemReach value lock le h r) step

  -- Of a semaphore made under a key with no list, with a value up to its maximum, and released
  -- only by its holders, on a server whose commands do as documented: its value and the number of
  -- its holders are together the value it was made with, so a Lock has one holder at most.
  pub semaphore_held :
      (name value max_value : ℕ) (s : S) (p : Shared S)
      → is.items name s ≡ []
      → value ≤ max_value
      → SemReach redis
          (new_sem_lock redis name value max_value s).0
          (record { client = (new_sem_lock redis name value max_value s).1; holders = [] })
          p
      → get_value redis (new_sem_lock redis name value max_value s).0 p.client + length p.holders
        ≡ value
  unfolding new_sem_lock get_value Balanced items_of
  semaphore_held name value max_value s p fresh le r =
      let lock : SemLock = record { name = name; max_value = max_value } in
      let pushed = items-push_all name value s in
      let empty = ap length fresh in
      let balanced = Balanced-SemReach value lock le (omega (arith, pushed, empty)) r in
      omega (arith, is.llen-items name p.client, balanced)

module _ {S : Type 0} (redis : Redis S) where
  -- A process that does not own an RLock and whose non-blocking acquire is refused is told by its
  -- next acquire, blocking or not, that it has the lock, and nothing is taken.
  pub acquire_rlock-refused :
      (lock : SemLock) (s : S) (block : Bool) {owned : Bool} {s' : S}
      → acquire_rlock redis false lock (false, s) ≡ some (false, owned, s')
      → acquire_rlock redis block lock (owned, s') ≡ some (true, true, s')
  unfolding acquire_rlock acquire_lock acquire
  acquire_rlock-refused lock s block {owned} {s'} e =
      let marked : owned ≡ true = cc in rw marked refl

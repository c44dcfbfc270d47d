-- ===== src/Redis.antt =====
-- What lithops/multiprocessing and lithops/standalone use of a Redis server: lists under keys. The
-- commands are those of its documentation; keys and values are numbers.
use lithops.Base.{
  ℕ, suc, ◌-◌, ◌≡◌, ◌≢◌, Bool, not, is_none, Option, none, some, List, [], ◌∷◌, ◌++◌, length,
  get_elem?, set, take, drop, ◌==◌, if◌then◌else◌, ℤ, pos, negsuc, position,
}

-- `rpush_all` is rpush of several values, `lrem` with the count 1. `lset` says whether it was done.
pub record Redis (S : Type 0) : Type 0 where
  pub llen : ℕ → S → ℕ
  pub lpush : ℕ → ℕ → S → S
  pub rpush : ℕ → ℕ → S → S
  pub rpush_all : ℕ → List ℕ → S → S
  pub lpop : ℕ → S → Option ℕ × S
  pub rpop : ℕ → S → Option ℕ × S
  pub lindex : ℕ → ℤ → S → Option ℕ
  pub lset : ℕ → ℤ → ℕ → S → Bool × S
  pub lrange : ℕ → (start stop : ℤ) → S → List ℕ
  pub lrem : ℕ → ℕ → S → S
  pub delete : ℕ → S → S

-- What lpop and rpop take off a list and leave of it.
abbrev pub first : List ℕ → Option ℕ
first [] = none
first (x ∷ xs) = some x

abbrev pub rest : List ℕ → List ℕ
rest [] = []
rest (x ∷ xs) = xs

abbrev pub last : List ℕ → Option ℕ
last [] = none
last (x ∷ []) = some x
last (x ∷ y ∷ xs) = last (y ∷ xs)

abbrev pub front : List ℕ → List ℕ
front [] = []
front (x ∷ []) = []
front (x ∷ y ∷ xs) = x ∷ front (y ∷ xs)

abbrev pub at_index : List ℕ → ℤ → Option ℕ
at_index xs i = elim (position (length xs) i) [ none ↦ none | some p ↦ get_elem? xs p ]

abbrev pub with_index : List ℕ → ℤ → ℕ → List ℕ
with_index xs i v = elim (position (length xs) i) [ none ↦ xs | some p ↦ set xs p v ]

-- A start before the list is its start; both ends belong to the range.
abbrev pub range_start : ℕ → ℤ → ℕ
range_start n (pos a) = a
range_start n (negsuc a) = n - suc a

abbrev pub range_end : ℕ → ℤ → ℕ
range_end n (pos b) = suc b
range_end n (negsuc b) = n - b

abbrev pub range_of : (start stop : ℤ) → List ℕ → List ℕ
range_of start stop xs =
    let n = length xs in
    let from = range_start n start in take (range_end n stop - from) (drop from xs)

abbrev pub remove_first : ℕ → List ℕ → List ℕ
remove_first v [] = []
remove_first v (x ∷ xs) = if x == v then xs else x ∷ remove_first v xs

-- Each command reads or changes the list under its key alone.
pub record IsRedis {S : Type 0} (redis : Redis S) : Type 0 where
  pub items : ℕ → S → List ℕ
  pub llen-items : (k : ℕ) (s : S) → redis.llen k s ≡ length (items k s)
  pub lpush-items : (k x : ℕ) (s : S) → items k (redis.lpush k x s) ≡ x ∷ items k s
  pub rpush-items : (k x : ℕ) (s : S) → items k (redis.rpush k x s) ≡ items k s ++ x ∷ []
  pub rpush_other : (j k x : ℕ) (s : S) → j ≢ k → items j (redis.rpush k x s) ≡ items j s
  pub rpush_all-items :
      (k : ℕ) (xs : List ℕ) (s : S) → items k (redis.rpush_all k xs s) ≡ items k s ++ xs
  pub lpop-first : (k : ℕ) (s : S) → (redis.lpop k s).0 ≡ first (items k s)
  pub lpop-items : (k : ℕ) (s : S) → items k (redis.lpop k s).1 ≡ rest (items k s)
  pub lpop_other : (j k : ℕ) (s : S) → j ≢ k → items j (redis.lpop k s).1 ≡ items j s
  pub rpop-last : (k : ℕ) (s : S) → (redis.rpop k s).0 ≡ last (items k s)
  pub rpop-items : (k : ℕ) (s : S) → items k (redis.rpop k s).1 ≡ front (items k s)
  pub lindex-items : (k : ℕ) (i : ℤ) (s : S) → redis.lindex k i s ≡ at_index (items k s) i
  pub lset-done :
      (k : ℕ) (i : ℤ) (x : ℕ) (s : S)
      → (redis.lset k i x s).0 ≡ not (is_none (position (length (items k s)) i))
  pub lset-items :
      (k : ℕ) (i : ℤ) (x : ℕ) (s : S) → items k (redis.lset k i x s).1 ≡ with_index (items k s) i x
  pub lrange-items : (k : ℕ) (a b : ℤ) (s : S) → redis.lrange k a b s ≡ range_of a b (items k s)
  pub lrem-items : (k x : ℕ) (s : S) → items k (redis.lrem k x s) ≡ remove_first x (items k s)
  pub delete-items : (k : ℕ) (s : S) → items k (redis.delete k s) ≡ []
  pub delete_other : (j k : ℕ) (s : S) → j ≢ k → items j (redis.delete k s) ≡ items j s

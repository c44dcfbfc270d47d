-- ===== src/Multiprocessing/Lists/Proxy.antt =====
-- ListProxy of lithops/multiprocessing/managers.py. An object is here the number of its pickled form.
-- The proxy is its key; what `get_uuid` gives for a sentinel is an argument. The step of a slice,
-- which the code does not use, the copying of proxies and the expiry of keys are left out.
use lithops.Base.{
  ℕ, zero, suc, ◌-◌, Bool, true, false, ◌&&◌, Option, none, some, List, [], ◌∷◌, ◌++◌, reverse,
  repeat, take, drop, length, count_if, ltb, ◌==◌, if◌then◌else◌, ℤ, pos, negsuc, suc_ℤ, pred_ℤ,
  range_size, bound,
}
use lithops.Redis.{Redis}

-- What a method returns or raises: `nothing` is None, `itself` the object called,
-- `response_error` what the client of the server raises. No method of the proxy raises `value_error`, but one of lists does.
pub data Reply : Type 0 where
  value : ℕ → Reply
  values : List ℕ → Reply
  nothing itself index_error value_error response_error : Reply

abbrev pub eq_ℤ : ℤ → ℤ → Bool
eq_ℤ (pos a) (pos b) = a == b
eq_ℤ (negsuc a) (negsuc b) = a == b
eq_ℤ _ _ = false

-- Start and inclusive end of slice(start, stop); `none` is (None, None, None).
unfoldable pub deslice : (start stop : Option ℤ) → Option (ℤ × ℤ)
deslice start stop =
    let from : ℤ = elim start [ none ↦ pos 0 | some a ↦ a ] in
    elim stop [
      | none ↦ some (from, negsuc 0)
      | some b ↦
          if eq_ℤ from b then none else (if eq_ℤ b (pos 0) then none else some (from, pred_ℤ b))
    ]

-- `list.insert`.
abbrev pub insert_at : ℤ → ℕ → List ℕ → List ℕ
insert_at i obj xs = let p = bound (length xs) i in take p xs ++ obj ∷ drop p xs

-- `return self` behind a call that may raise.
abbrev pub then_self : {S : Type 0} → Reply × S → Reply × S
then_self (nothing, s) = (itself, s)
then_self (r, s) = (r, s)

module _ {S : Type 0} (redis : Redis S) (oid : ℕ) where
  unfoldable pub set_item : ℤ → (obj : ℕ) → S → Reply × S
  set_item i obj s =
      let (done, s') = redis.lset oid i obj s in (if done then nothing else index_error, s')

  unfoldable pub get_item : ℤ → S → Reply
  get_item i s = elim (redis.lindex oid i s) [ none ↦ index_error | some v ↦ value v ]

  unfoldable pub get_slice : (start stop : Option ℤ) → S → List ℕ
  unfolding deslice
  get_slice start stop s = elim (deslice start stop) [
    | none ↦ []
    | some (from, to) ↦ redis.lrange oid from to s
  ]

  -- The pipeline of a slice's assignment: `n` rounds at most. It goes on after an error.
  unfoldable pub set_each : ℤ → (n : ℕ) → List ℕ → S → Bool × S
  set_each j zero objs s = (true, s)
  set_each j (suc n) [] s = (true, s)
  set_each j (suc n) (obj ∷ objs) s =
      let (done, s1) = redis.lset oid j obj s in
      let (all_done, s2) = set_each (suc_ℤ j) n objs s1 in (done && all_done, s2)

  -- len(self) + end
  unfoldable pub from_end : ℤ → S → ℤ
  from_end (pos b) s = pos b
  from_end (negsuc b) s =
      let n = redis.llen oid s in if ltb b n then pos (n - suc b) else negsuc (b - n)

  unfoldable pub set_slice : (start stop : Option ℤ) → (objs : List ℕ) → S → Reply × S
  unfolding deslice set_each from_end
  set_slice start stop objs s = elim (deslice start stop) [
    | none ↦ (nothing, s)
    | some (from, to) ↦
        let (done, s') = set_each from (range_size from (from_end to s)) objs s in
        (if done then nothing else response_error, s')
  ]

  -- rpush of no values is an error of the server.
  unfoldable pub push_values : List ℕ → S → Reply × S
  push_values [] s = (response_error, s)
  push_values (x ∷ xs) s = (nothing, redis.rpush_all oid (x ∷ xs) s)

  -- `extend` by an iterable; only an empty list is equal to [].
  unfoldable pub extend : (is_list : Bool) → List ℕ → S → Reply × S
  unfolding push_values
  extend true [] s = (nothing, s)
  extend true (x ∷ xs) s = push_values (x ∷ xs) s
  extend false xs s = push_values xs s

  -- LUA_EXTEND_LIST_SCRIPT: the values are read once.
  unfoldable pub push_times : ℕ → List ℕ → S → S
  push_times zero vals s = s
  push_times (suc n) vals s = push_times n vals (redis.rpush_all oid vals s)

  unfoldable pub extend_same_type : (other : ℕ) → (times : ℕ) → S → S
  unfolding push_times
  extend_same_type other times s = elim (redis.lrange other (pos 0) (negsuc 0) s) [
    | [] ↦ s
    | x ∷ xs ↦ push_times times (x ∷ xs) s
  ]

  unfoldable pub append : (obj : ℕ) → S → Reply × S
  append obj s = (nothing, redis.rpush oid obj s)

  unfoldable pub remove : (obj : ℕ) → S → S
  remove obj s = redis.lrem oid obj s

  unfoldable pub pop : S → Reply × S
  pop s =
      let (serialized, s') = redis.rpop oid s in
      (elim serialized [ none ↦ nothing | some v ↦ value v ], s')

  -- pop(index): what a step raises ends it.
  unfoldable pub pop_at : (sentinel : ℕ) → ℤ → S → Reply × S
  unfolding get_item set_item remove
  pop_at sentinel i s = elim (get_item i s) [
    | value v ↦
        let (res, s1) = set_item i sentinel s in
        elim res [ nothing ↦ (value v, remove sentinel s1) | other ↦ (other, s1) ]
    | raised ↦ (raised, s)
  ]

  unfoldable pub del_item : (sentinel : ℕ) → ℤ → S → Reply × S
  unfolding set_item remove
  del_item sentinel i s =
      let (res, s1) = set_item i sentinel s in
      elim res [ nothing ↦ (nothing, remove sentinel s1) | other ↦ (other, s1) ]

  -- self[:]
  unfoldable pub to_list : S → List ℕ
  unfolding get_slice
  to_list s = get_slice none none s

  unfoldable pub add : List ℕ → S → List ℕ
  unfolding to_list
  add xs s = to_list s ++ xs

  unfoldable pub mul : ℕ → S → List ℕ
  unfolding to_list
  mul n s = if ltb n 1 then [] else repeat n (to_list s)

  -- __imul__
  unfoldable pub mul_self : ℕ → S → S
  unfolding extend_same_type
  mul_self n s = if ltb 1 n then extend_same_type oid (n - 1) s else s

  -- `reversed` is no list, and `sorted` is one.
  unfoldable pub reverse_self : S → Reply × S
  unfolding to_list extend
  reverse_self s = then_self (extend false (reverse (to_list s)) (redis.delete oid s))

  unfoldable pub sort_self : (sorted : List ℕ → List ℕ) → S → Reply × S
  unfolding to_list extend
  sort_self sorted s = then_self (extend true (sorted (to_list s)) (redis.delete oid s))

  unfoldable pub insert : ℤ → (obj : ℕ) → S → Reply × S
  unfolding to_list extend
  insert i obj s = extend true (insert_at i obj (to_list s)) (redis.delete oid s)

  unfoldable pub count : (obj : ℕ) → S → ℕ
  unfolding to_list
  count obj s = count_if (λ x. x == obj) (to_list s)

-- ===== src/Multiprocessing/Lists/Refines.antt =====
-- A ListProxy against Python's list, for any sequence of calls.
use lithops.Base.{
  ℕ, ◌<◌, ◌≡◌, ◌≢◌, Bool, false, Option, none, some, List, [], ◌∷◌, ◌++◌, repeat, reverse, length,
  get_elem?, set, count_if, ltb, ◌==◌, if◌then◌else◌, ℤ, position, slice,
}
use lithops.Redis.{Redis, IsRedis, last, front, remove_first, at_index}
use lithops.Multiprocessing.Lists.Proxy
use lithops.Multiprocessing.Lists.Proxy.{
  Reply, value, values, nothing, itself, index_error, value_error, insert_at,
}
use lithops.Multiprocessing.Lists.Methods.{without}

-- The calls; `pop_at` and `del_item` with the sentinel that they make up.
pub data Op : Type 0 where
  set_item : ℤ → ℕ → Op
  get_item : ℤ → Op
  get_slice : (start stop : Option ℤ) → Op
  extend : (is_list : Bool) → List ℕ → Op
  append remove : ℕ → Op
  pop reverse_self : Op
  pop_at del_item : (sentinel : ℕ) → ℤ → Op
  insert : ℤ → ℕ → Op
  sort_self : (List ℕ → List ℕ) → Op
  mul_self : ℕ → Op

unfoldable pub call_proxy : {S : Type 0} → Redis S → (oid : ℕ) → Op → S → Reply × S
call_proxy redis oid (set_item i x) s = Proxy.set_item redis oid i x s
call_proxy redis oid (get_item i) s = (Proxy.get_item redis oid i s, s)
call_proxy redis oid (get_slice a b) s = (values (Proxy.get_slice redis oid a b s), s)
call_proxy redis oid (extend is_list xs) s = Proxy.extend redis oid is_list xs s
call_proxy redis oid (append x) s = Proxy.append redis oid x s
call_proxy redis oid (remove x) s = (itself, Proxy.remove redis oid x s)
call_proxy redis oid pop s = Proxy.pop redis oid s
call_proxy redis oid reverse_self s = Proxy.reverse_self redis oid s
call_proxy redis oid (pop_at z i) s = Proxy.pop_at redis oid z i s
call_proxy redis oid (del_item z i) s = Proxy.del_item redis oid z i s
call_proxy redis oid (insert i x) s = Proxy.insert redis oid i x s
call_proxy redis oid (sort_self sorted) s = Proxy.sort_self redis oid sorted s
call_proxy redis oid (mul_self n) s = (itself, Proxy.mul_self redis oid n s)

value_or_error : Option ℕ → Reply
value_or_error none = index_error
value_or_error (some v) = value v

-- What Python's list does.
unfoldable pub call_list : Op → List ℕ → Reply × List ℕ
unfolding value_or_error
call_list (set_item i x) xs = elim (position (length xs) i) [
  | none ↦ (index_error, xs)
  | some p ↦ (nothing, set xs p x)
]
call_list (get_item i) xs = (value_or_error (at_index xs i), xs)
call_list (get_slice a b) xs = (values (slice a b xs), xs)
call_list (extend is_list ys) xs = (nothing, xs ++ ys)
call_list (append x) xs = (nothing, xs ++ x ∷ [])
call_list (remove x) xs =
    if ltb 0 (count_if (λ y. y == x) xs) then (nothing, remove_first x xs) else (value_error, xs)
call_list pop xs = (value_or_error (last xs), front xs)
call_list reverse_self xs = (nothing, reverse xs)
call_list (pop_at z i) xs = elim (position (length xs) i) [
  | none ↦ (index_error, xs)
  | some p ↦ (value_or_error (get_elem? xs p), without p xs)
]
call_list (del_item z i) xs = elim (position (length xs) i) [
  | none ↦ (index_error, xs)
  | some p ↦ (nothing, without p xs)
]
call_list (insert i x) xs = (nothing, insert_at i x xs)
call_list (sort_self sorted) xs = (nothing, sorted xs)
call_list (mul_self n) xs = (itself, repeat n xs)

-- remove, reverse and sort of the proxy return the proxy, where those of a list return None.
abbrev pub self_for_none : Op → Reply → Reply
self_for_none (remove x) nothing = itself
self_for_none reverse_self nothing = itself
self_for_none (sort_self sorted) nothing = itself
self_for_none _ r = r

-- What Python's list does, with these replies of the proxy.
unfoldable pub call_chained : Op → List ℕ → Reply × List ℕ
call_chained op xs = let (r, ys) = call_list op xs in (self_for_none op r, ys)

unfoldable pub call_all : {T : Type 0} → (Op → T → Reply × T) → List Op → T → List Reply × T
call_all call [] t = ([], t)
call_all call (op ∷ ops) t =
    let (reply, t1) = call op t in let (replies, t2) = call_all call ops t1 in (reply ∷ replies, t2)

-- Where the two agree: an empty list is not popped or reversed, nothing that is not there is
-- removed, a list is extended by no other empty iterable and is not multiplied by 0, and a
-- sentinel is new.
abbrev pub Agreed : Op → List ℕ → Type 0
Agreed (extend is_list ys) xs = is_list ≡ false → ys ≢ []
Agreed (remove x) xs = 0 < count_if (λ y. y == x) xs
Agreed pop xs = 0 < length xs
Agreed reverse_self xs = 0 < length xs
Agreed (pop_at z i) xs = count_if (λ y. y == z) xs ≡ 0
Agreed (del_item z i) xs = count_if (λ y. y == z) xs ≡ 0
Agreed (mul_self n) xs = 0 < n
Agreed _ xs = Unit {0}

abbrev pub AllAgreed : List Op → List ℕ → Type 0
AllAgreed [] xs = Unit {0}
AllAgreed (op ∷ ops) xs = Agreed op xs × AllAgreed ops (call_list op xs).1

module _ {S : Type 0} (redis : Redis S) (is : IsRedis redis) (oid : ℕ) where
  Same : Op → S → Type 0
  Same op s =
      ((call_proxy redis oid op s).0 ≡ self_for_none op (call_list op (is.items oid s)).0)
      × (is.items oid (call_proxy redis oid op s).1 ≡ (call_list op (is.items oid s)).1)

-- ===== src/Multiprocessing/Lists/Methods.antt =====
-- What each method of a ListProxy does to the items under its key.
use lithops.Base.{
  ℕ, zero, suc, ◌-◌, ◌<◌, ◌≡◌, ◌≢◌, refl, sym, ap, ◌∙◌, Bool, true, false, none, some, List, [],
  ◌∷◌, ◌++◌, append-nil, append_assoc, repeat, length, get_elem?, set, count_if, take, drop, ◌==◌,
  ltb, ℤ, pos, negsuc, position, arith,
}
use lithops.Redis.{Redis, IsRedis, at_index, with_index, remove_first}
use lithops.Multiprocessing.Lists.Proxy.{
  value, nothing, index_error, set_item, get_item, extend, push_values, push_times,
  extend_same_type, mul_self, pop_at, del_item, remove, to_list, get_slice, deslice,
}
use lithops.Multiprocessing.Lists.Slices.{to_list_lem}

abbrev pub without : ℕ → List ℕ → List ℕ
without p xs = take p xs ++ drop (suc p) xs

-- The sentinel is found where it was put.
remove_first-set :
    (z p : ℕ) (xs : List ℕ)
    → count_if (λ x. x == z) xs ≡ 0
    → p < length xs
    → remove_first z (set xs p z) ≡ without p xs
remove_first-set z p [] h lt = absurd (omega arith)
remove_first-set z zero (x ∷ xs) h lt = ground arith
remove_first-set z (suc p) (x ∷ xs) h lt = ground (arith, remove_first-set z p xs)

repeat-nil : (n : ℕ) → repeat {A = ℕ} n [] ≡ []
repeat-nil zero = refl
repeat-nil (suc n) = repeat-nil n

pub position-lt : (n : ℕ) (i : ℤ) {p : ℕ} → position n i ≡ some p → p < n
position-lt n (pos i) e = ground arith
position-lt n (negsuc i) e = ground arith

pub get_elem?-lt : (xs : List ℕ) (p : ℕ) → p < length xs → (v : ℕ) × (get_elem? xs p ≡ some v)
get_elem?-lt [] p lt = absurd (omega arith)
get_elem?-lt (x ∷ xs) zero lt = (x, refl)
get_elem?-lt (x ∷ xs) (suc p) lt = get_elem?-lt xs p (omega arith)

module _ {S : Type 0} (redis : Redis S) (is : IsRedis redis) (oid : ℕ) where
  -- Where the index is in range, and where it is not.
  pub set_item_lem :
      (i : ℤ) (obj : ℕ) (s : S) {p : ℕ}
      → position (length (is.items oid s)) i ≡ some p
      → ((set_item redis oid i obj s).0 ≡ nothing)
        × (is.items oid (set_item redis oid i obj s).1 ≡ set (is.items oid s) p obj)
  unfolding set_item
  set_item_lem i obj s e =
      let done = rw e at (is.lset-done oid i obj s) in
      (rw done refl, is.lset-items oid i obj s ∙ (rw (e, with_index) refl))

  pub set_item-out :
      (i : ℤ) (obj : ℕ) (s : S)
      → position (length (is.items oid s)) i ≡ none
      → ((set_item redis oid i obj s).0 ≡ index_error)
        × (is.items oid (set_item redis oid i obj s).1 ≡ is.items oid s)
  unfolding set_item
  set_item-out i obj s e =
      let done = rw e at (is.lset-done oid i obj s) in
      (rw done refl, is.lset-items oid i obj s ∙ (rw (e, with_index) refl))

  pub del_item_lem :
      (z : ℕ) (i : ℤ) (s : S) {p : ℕ}
      → count_if (λ x. x == z) (is.items oid s) ≡ 0
      → position (length (is.items oid s)) i ≡ some p
      → ((del_item redis oid z i s).0 ≡ nothing)
        × (is.items oid (del_item redis oid z i s).1 ≡ without p (is.items oid s))
  unfolding del_item remove
  del_item_lem z i s {p} fresh e =
      let (done, put) = set_item_lem i z s e in
      let gone =
        is.lrem-items oid z (set_item redis oid i z s).1
        ∙ ap (remove_first z) put
        ∙ remove_first-set z p (is.items oid s) fresh (position-lt _ i e) in
      (rw (done, del_item) refl, rw (done, del_item) gone)

  pub del_item-out :
      (z : ℕ) (i : ℤ) (s : S)
      → position (length (is.items oid s)) i ≡ none
      → ((del_item redis oid z i s).0 ≡ index_error)
        × (is.items oid (del_item redis oid z i s).1 ≡ is.items oid s)
  unfolding del_item
  del_item-out z i s e =
      let (done, put) = set_item-out i z s e in (rw (done, del_item) refl, rw (done, del_item) put)

  pub pop_at_lem :
      (z : ℕ) (i : ℤ) (s : S) {p v : ℕ}
      → count_if (λ x. x == z) (is.items oid s) ≡ 0
      → position (length (is.items oid s)) i ≡ some p
      → get_elem? (is.items oid s) p ≡ some v
      → ((pop_at redis oid z i s).0 ≡ value v)
        × (is.items oid (pop_at redis oid z i s).1 ≡ without p (is.items oid s))
  unfolding pop_at get_item remove
  pop_at_lem z i s {p} fresh e there =
      let got = rw there at (rw (e, at_index) at (is.lindex-items oid i s)) in
      let (done, put) = set_item_lem i z s e in
      let gone =
        is.lrem-items oid z (set_item redis oid i z s).1
        ∙ ap (remove_first z) put
        ∙ remove_first-set z p (is.items oid s) fresh (position-lt _ i e) in
      (rw (got, done, pop_at, get_item) refl, rw (got, done, pop_at, get_item) gone)

  pub pop_at-out :
      (z : ℕ) (i : ℤ) (s : S)
      → position (length (is.items oid s)) i ≡ none
      → pop_at redis oid z i s ≡ (index_error, s)
  unfolding pop_at get_item
  pop_at-out z i s e =
      let got = rw (e, at_index) at (is.lindex-items oid i s) in rw (got, pop_at, get_item) refl

  items-push_times :
      (n : ℕ) (vals : List ℕ) (s : S)
      → is.items oid (push_times redis oid n vals s) ≡ is.items oid s ++ repeat n vals
  unfolding push_times
  items-push_times zero vals s = sym (append-nil _)
  items-push_times (suc n) vals s =
      items-push_times n vals (redis.rpush_all oid vals s)
      ∙ ap (λ l. l ++ repeat n vals) (is.rpush_all-items oid vals s)
      ∙ append_assoc (is.items oid s) vals (repeat n vals)

  pub extend_lem :
      (is_list : Bool) (xs : List ℕ) (s : S)
      → (is_list ≡ false → xs ≢ [])
      → ((extend redis oid is_list xs s).0 ≡ nothing)
        × (is.items oid (extend redis oid is_list xs s).1 ≡ is.items oid s ++ xs)
  unfolding extend push_values
  extend_lem true [] s ne = (refl, sym (append-nil _))
  extend_lem true (x ∷ xs) s ne = (refl, is.rpush_all-items oid (x ∷ xs) s)
  extend_lem false [] s ne = absurd (ne refl refl)
  extend_lem false (x ∷ xs) s ne = (refl, is.rpush_all-items oid (x ∷ xs) s)

  -- `delete` and `extend` put a new list in the place of the old.
  pub extend-delete :
      (is_list : Bool) (xs : List ℕ) (s : S)
      → (is_list ≡ false → xs ≢ [])
      → ((extend redis oid is_list xs (redis.delete oid s)).0 ≡ nothing)
        × (is.items oid (extend redis oid is_list xs (redis.delete oid s)).1 ≡ xs)
  extend-delete is_list xs s ne =
      let (done, put) = extend_lem is_list xs (redis.delete oid s) ne in
      (done, put ∙ ap (λ l. l ++ xs) (is.delete-items oid s))

  push_or_none :
      (n : ℕ) (vals : List ℕ) (s : S)
      → is.items oid (elim vals [ [] ↦ s | x ∷ xs ↦ push_times redis oid n (x ∷ xs) s ])
        ≡ is.items oid s ++ repeat n vals
  push_or_none n [] s = sym (ap (λ l. is.items oid s ++ l) (repeat-nil n) ∙ append-nil _)
  push_or_none n (x ∷ xs) s = items-push_times n (x ∷ xs) s

  pub mul_self_lem :
      (n : ℕ) (s : S)
      → is.items oid (mul_self redis oid (suc n) s) ≡ repeat (suc n) (is.items oid s)
  unfolding mul_self extend_same_type to_list get_slice deslice
  mul_self_lem zero s = sym (append-nil _)
  mul_self_lem (suc n) s =
      let more : ltb 1 (suc (suc n)) ≡ true = ground arith in
      let times : suc (suc n) - 1 ≡ suc n = omega arith in
      rw (more, times)
        (push_or_none (suc n) (redis.lrange oid (pos 0) (negsuc 0) s) s
          ∙ ap (λ l. is.items oid s ++ repeat (suc n) l) (to_list_lem redis is oid s))

-- ===== src/Multiprocessing/Lists/Assign.antt =====
-- The assignment to a slice of a ListProxy.
use lithops.Base.{
  ℕ, zero, suc, ◌+◌, ◌-◌, ◌≤◌, ◌<◌, ◌≡◌, refl, sym, ap, ◌∙◌, true, false, some, List, [], ◌∷◌, ◌++◌,
  append_assoc, length, set, take, drop, ◌==◌, take-append-drop, length-set, pos, position, arith,
}
use lithops.Redis.{Redis, IsRedis, with_index}
use lithops.Multiprocessing.Lists.Proxy.{nothing, deslice, set_each, from_end, set_slice}

take-suc-set :
    (a o : ℕ) (xs : List ℕ) → a < length xs → take (suc a) (set xs a o) ≡ take a xs ++ o ∷ []
take-suc-set a o [] lt = absurd (omega arith)
take-suc-set zero o (x ∷ xs) lt = refl
take-suc-set (suc a) o (x ∷ xs) lt = ap (λ l. x ∷ l) (take-suc-set a o xs (omega arith))

drop-set : (a m o : ℕ) (xs : List ℕ) → drop (suc a + m) (set xs a o) ≡ drop (suc a + m) xs
drop-set a m o [] = refl
drop-set zero m o (x ∷ xs) = let next : 1 + m ≡ suc m = omega arith in rw next refl
drop-set (suc a) m o (x ∷ xs) =
    let next : suc (suc a) + m ≡ suc (suc a + m) = omega arith in rw next (drop-set a m o xs)

deslice_pos :
    (a n : ℕ) → deslice (some (pos a)) (some (pos (suc (a + n)))) ≡ some (pos a, pos (a + n))
unfolding deslice
deslice_pos a n =
    let differ : (a == suc (a + n)) ≡ false = ground arith in
    let nonzero : (suc (a + n) == 0) ≡ false = ground arith in rw (differ, nonzero, deslice) refl

module _ {S : Type 0} (redis : Redis S) (is : IsRedis redis) (oid : ℕ) where
  -- Rounds within the list all succeed, and write as many objects as there are rounds.
  set_each_lem :
      (a m : ℕ) (objs : List ℕ) (s : S)
      → m ≤ length objs
      → a + m ≤ length (is.items oid s)
      → ((set_each redis oid (pos a) m objs s).0 ≡ true)
        × (is.items oid (set_each redis oid (pos a) m objs s).1
            ≡ take a (is.items oid s) ++ (take m objs ++ drop (a + m) (is.items oid s)))
  unfolding set_each
  set_each_lem a zero objs s few fits =
      let sum : a + 0 ≡ a = omega arith in
      (refl, rw sum (sym (take-append-drop a (is.items oid s))))
  set_each_lem a (suc m) [] s few fits = absurd (omega arith)
  set_each_lem a (suc m) (o ∷ objs) s few fits =
      let xs = is.items oid s in
      let here : position (length xs) (pos a) ≡ some a = ground arith in
      let done = rw here at (is.lset-done oid (pos a) o s) in
      let put = rw (here, with_index) at (is.lset-items oid (pos a) o s) in
      let (all, later) =
        set_each_lem (suc a) m objs (redis.lset oid (pos a) o s).1 (omega arith)
          (omega (arith, ap length put, length-set xs a o)) in
      let sum : a + suc m ≡ suc a + m = omega arith in
      (
        rw (done, all) refl,
        later
            ∙ ap (λ l. take (suc a) l ++ (take m objs ++ drop (suc a + m) l)) put
            ∙ rw (take-suc-set a o xs (omega arith), drop-set a m o xs, sum)
                (append_assoc (take a xs) (o ∷ []) (take m objs ++ drop (suc a + m) xs)),
      )

  -- To a slice within the list, which is not empty and whose two bounds are given and count from the
  -- start, as many objects are assigned as it has elements: the last of the objects is left out, without an error, and the last element stays as it was.
  pub set_slice-short :
      (a n : ℕ) (objs : List ℕ) (s : S)
      → length objs ≡ suc n
      → a + suc n ≤ length (is.items oid s)
      → ((set_slice redis oid (some (pos a)) (some (pos (suc (a + n)))) objs s).0 ≡ nothing)
        × (is.items oid (set_slice redis oid (some (pos a)) (some (pos (suc (a + n)))) objs s).1
            ≡ take a (is.items oid s) ++ (take n objs ++ drop (a + n) (is.items oid s)))
  unfolding set_slice deslice from_end
  set_slice-short a n objs s size fits =
      let rounds : a + n - a ≡ n = omega arith in
      let (done, put) = set_each_lem a n objs s (omega arith) (omega arith) in
      rw (deslice_pos a n, set_slice, rounds, done) (refl, put)

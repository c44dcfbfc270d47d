-- ===== src/Multiprocessing/Lists/Slices.antt =====
-- Redis's ranges and Python's slices.
use lithops.Base.{
  ℕ, zero, suc, ◌-◌, ◌≤◌, ◌≡◌, refl, sym, ap, ◌∙◌, Option, none, some, List, [], ◌∷◌, length, take,
  drop, min, false, Bool-cases, Option-cases, inl, inr, take_all, take-nil, drop-take, ◌==◌, ℤ, pos,
  negsuc, slice, bound, arith,
}
use lithops.Redis.{Redis, IsRedis, range_of}
use lithops.Multiprocessing.Lists.Proxy.{deslice, get_slice, to_list}

cut : (lo hi : ℕ) → List ℕ → List ℕ
cut lo hi xs = take (hi - lo) (drop lo xs)

take-min : (n : ℕ) (xs : List ℕ) → take (min n (length xs)) xs ≡ take n xs
take-min zero xs = let none : min 0 (length xs) ≡ 0 = omega arith in rw none refl
take-min (suc n) [] = take-nil (min (suc n) 0)
take-min (suc n) (x ∷ xs) =
    let shorter : min (suc n) (suc (length xs)) ≡ suc (min n (length xs)) = omega arith in
    rw shorter (ap (λ l. x ∷ l) (take-min n xs))

-- Ends past the list are as good as its end.
cut-min :
    (lo hi : ℕ) (xs : List ℕ) → cut (min lo (length xs)) (min hi (length xs)) xs ≡ cut lo hi xs
unfolding cut
cut-min zero hi xs =
    let zeros : min 0 (length xs) ≡ 0 = omega arith in
    let left : min hi (length xs) - 0 ≡ min hi (length xs) = omega arith in
    let right : hi - 0 ≡ hi = omega arith in rw (zeros, left, right) (take-min hi xs)
cut-min (suc lo) hi [] =
    let zeros : min (suc lo) 0 ≡ 0 = omega arith in rw zeros (take-nil _ ∙ sym (take-nil _))
cut-min (suc lo) hi (x ∷ xs) =
    let one : min (suc lo) (suc (length xs)) ≡ suc (min lo (length xs)) = omega arith in
    let same : min hi (suc (length xs)) - suc (min lo (length xs))
        ≡ min (hi - 1) (length xs) - min lo (length xs) =
      omega arith in
    let size : hi - suc lo ≡ hi - 1 - lo = omega arith in
    rw (one, same, size) (cut-min lo (hi - 1) xs)

same_cut :
    (lo hi lo' hi' : ℕ) (xs : List ℕ)
    → min lo (length xs) ≡ min lo' (length xs)
    → min hi (length xs) ≡ min hi' (length xs)
    → take (hi - lo) (drop lo xs) ≡ drop lo' (take hi' xs)
unfolding cut
same_cut lo hi lo' hi' xs p q =
    let here : cut (min lo' (length xs)) (min hi' (length xs)) xs ≡ cut lo hi xs =
      rw (← p, ← q) (cut-min lo hi xs) in
    sym here ∙ cut-min lo' hi' xs ∙ sym (drop-take lo' hi' xs)

range_of_desliced : (start stop : Option ℤ) → List ℕ → List ℕ
range_of_desliced start stop xs = elim (deslice start stop) [
  | none ↦ []
  | some (from, to) ↦ range_of from to xs
]

no_slice : (lo hi : ℕ) (xs : List ℕ) → hi ≤ lo → [] ≡ drop lo (take hi xs)
no_slice lo hi xs le =
    let none : hi - lo ≡ 0 = omega arith in sym (drop-take lo hi xs ∙ (rw none refl))

eq_zero-suc : (b : ℕ) → (0 == suc b) ≡ false
eq_zero-suc b = ground arith

eq_suc-zero : (b : ℕ) → (suc b == 0) ≡ false
eq_suc-zero b = ground arith

deslice_lem :
    (start stop : Option ℤ) (xs : List ℕ) → range_of_desliced start stop xs ≡ slice start stop xs
unfolding deslice range_of_desliced
deslice_lem none none xs = same_cut 0 (length xs - 0) 0 (length xs) xs (omega arith) (omega arith)
deslice_lem none (some (pos zero)) xs = no_slice 0 (bound (length xs) (pos 0)) xs (ground arith)
deslice_lem none (some (pos (suc b))) xs =
    rw (eq_zero-suc b, eq_suc-zero b, range_of_desliced, deslice)
      (same_cut 0 (suc b) 0 (bound (length xs) (pos (suc b))) xs (omega arith) (ground arith))
deslice_lem none (some (negsuc b)) xs =
    same_cut 0 (length xs - suc b) 0 (length xs - suc b) xs (omega arith) (omega arith)
deslice_lem (some (pos a)) none xs =
    same_cut a (length xs - 0) (bound (length xs) (pos a)) (length xs) xs (ground arith)
      (omega arith)
deslice_lem (some (negsuc a)) none xs =
    same_cut (length xs - suc a) (length xs - 0) (length xs - suc a) (length xs) xs (omega arith)
      (omega arith)
deslice_lem (some (pos a)) (some (pos zero)) xs =
    let nothing =
      no_slice (bound (length xs) (pos a)) (bound (length xs) (pos 0)) xs (ground arith) in
    elim (Bool-cases (a == 0)) [
      | inl e ↦ rw (e, range_of_desliced, deslice) nothing
      | inr e ↦ rw (e, range_of_desliced, deslice) nothing
    ]
deslice_lem (some (pos a)) (some (pos (suc b))) xs = elim (Bool-cases (a == suc b)) [
  | inl e ↦
      rw (e, range_of_desliced, deslice)
        (no_slice (bound (length xs) (pos a)) (bound (length xs) (pos (suc b))) xs (ground arith))
  | inr e ↦
      rw (e, eq_suc-zero b, range_of_desliced, deslice)
        (same_cut a (suc b) (bound (length xs) (pos a)) (bound (length xs) (pos (suc b))) xs
          (ground arith) (ground arith))
]
deslice_lem (some (negsuc a)) (some (pos zero)) xs =
    no_slice (length xs - suc a) (bound (length xs) (pos 0)) xs (ground arith)
deslice_lem (some (negsuc a)) (some (pos (suc b))) xs =
    rw (eq_suc-zero b, range_of_desliced, deslice)
      (same_cut (length xs - suc a) (suc b) (length xs - suc a) (bound (length xs) (pos (suc b))) xs
        (omega arith) (ground arith))
deslice_lem (some (pos a)) (some (negsuc b)) xs =
    same_cut a (length xs - suc b) (bound (length xs) (pos a)) (length xs - suc b) xs (ground arith)
      (omega arith)
deslice_lem (some (negsuc a)) (some (negsuc b)) xs = elim (Bool-cases (a == b)) [
  | inl e ↦
      rw (e, range_of_desliced, deslice)
        (no_slice (length xs - suc a) (length xs - suc b) xs (ground arith))
  | inr e ↦
      rw (e, range_of_desliced, deslice)
        (same_cut (length xs - suc a) (length xs - suc b) (length xs - suc a) (length xs - suc b) xs
          (omega arith) (omega arith))
]

module _ {S : Type 0} (redis : Redis S) (is : IsRedis redis) (oid : ℕ) where
  -- A slice of a proxy is Python's slice of its items, whatever the signs and sizes of its ends.
  pub get_slice_lem :
      (start stop : Option ℤ) (s : S)
      → get_slice redis oid start stop s ≡ slice start stop (is.items oid s)
  unfolding get_slice range_of_desliced
  get_slice_lem start stop s = elim (Option-cases (deslice start stop)) [
    | inl e ↦
        rw (e, get_slice) (rw (e, range_of_desliced) at (deslice_lem start stop (is.items oid s)))
    | inr ((from, to), e) ↦
        rw (e, get_slice)
          (is.lrange-items oid from to s
            ∙ (rw (e, range_of_desliced) at (deslice_lem start stop (is.items oid s))))
  ]

  pub to_list_lem : (s : S) → to_list redis oid s ≡ is.items oid s
  unfolding to_list
  to_list_lem s =
      get_slice_lem none none s ∙ take_all (length (is.items oid s)) (is.items oid s) (omega arith)

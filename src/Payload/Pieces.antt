-- ===== src/Payload/Pieces.antt =====
-- What `iterchunks` yields.
use lithops.Base.{
  ℕ, zero, suc, ◌-◌, ◌*◌, ◌<◌, ◌≤◌, ◌≡◌, refl, ap, subst, ◌∙◌, some, List, [], ◌∷◌, ◌++◌, take,
  drop, length, length-take, length-drop, take-append-drop, arith, none, cons?, Bool-cases, ltb,
  ltb→lt, ltb-false→le, inl, inr,
}
use lithops.Payload.Chunks.{chunks_of, iterchunks}
use lithops.Partition.Number.{IsCeil}

ceil_zero : (n m : ℕ) → m * suc n < suc n → m ≡ 0
ceil_zero n zero h = refl
ceil_zero n (suc m) h = absurd (grind arith)

IsCeil-step : (len n m : ℕ) → IsCeil (len - n) (suc n) m → IsCeil (suc len) (suc n) (suc m)
IsCeil-step len n m (reach, least) = elim (Bool-cases (ltb len n)) [
  | inl short ↦
      let lt = ltb→lt len n short in
      let e : m ≡ 0 = ceil_zero n m (omega arith) in rw e (omega arith)
  | inr long ↦ let le = ltb-false→le len n long in (grind arith, grind arith)
]

module _ {A : Type 0} where
  abbrev pub flatten : List (List A) → List A
  flatten [] = []
  flatten (c ∷ cs) = c ++ flatten cs

  -- Every chunk holds between one and n elements.
  abbrev pub AllWithin : ℕ → List (List A) → Type 0
  AllWithin n [] = Unit
  AllWithin n (c ∷ cs) = (0 < length c) × (length c ≤ n) × AllWithin n cs

  chunks_of_lem :
      (fuel n : ℕ) (lst : List A)
      → length lst < fuel
      → (cs : List (List A)) × (chunks_of fuel lst (suc n) ≡ some cs)
        × (flatten cs ≡ lst)
        × AllWithin (suc n) cs
        × IsCeil (length lst) (suc n) (length cs)
  unfolding chunks_of
  chunks_of_lem zero n lst h = elim h [ ]
  chunks_of_lem (suc fuel) n [] h = ([], refl, refl, tt, (omega arith))
  chunks_of_lem (suc fuel) n (x ∷ lst) h =
      let (cs, e, whole, within, count) =
        chunks_of_lem fuel n (drop n lst) (omega (arith, length-drop n lst)) in
      (
        (x ∷ take n lst) ∷ cs,
        ap (cons? (x ∷ take n lst)) e,
        ap (λ r. x ∷ (take n lst ++ r)) whole ∙ ap (λ r. x ∷ r) (take-append-drop n lst),
        (omega arith, omega (arith, length-take n lst), within),
        IsCeil-step (length lst) n (length cs)
            (subst (λ k. IsCeil k (suc n) (length cs)) (length-drop n lst) count),
      )

  -- For n above 0, the chunks of a list, put together, are the list; each has one to n elements;
  -- and there are as few of them as can be.
  pub iterchunks_lem :
      (lst : List A) (n : ℕ)
      → 0 < n
      → (cs : List (List A)) × (iterchunks lst n ≡ some cs)
        × (flatten cs ≡ lst)
        × AllWithin n cs
        × IsCeil (length lst) n (length cs)
  unfolding iterchunks
  iterchunks_lem lst zero h = elim h [ ]
  iterchunks_lem lst (suc n) h = chunks_of_lem (suc (length lst)) n lst (omega arith)

  chunks_of_zero : (lst : List A) (fuel : ℕ) → chunks_of fuel lst 0 ≡ none
  unfolding chunks_of
  chunks_of_zero lst zero = refl
  chunks_of_zero lst (suc fuel) = refl

  -- The same of chunks that are at hand.
  pub iterchunks-some :
      (lst : List A) (n : ℕ) {cs : List (List A)}
      → iterchunks lst n ≡ some cs
      → (flatten cs ≡ lst) × IsCeil (length lst) n (length cs)
  unfolding iterchunks
  iterchunks-some lst zero e = cc (chunks_of_zero lst (suc (length lst)))
  iterchunks-some lst (suc n) {cs} e =
      let (ds, e', whole, _, ceil) = chunks_of_lem (suc (length lst)) n lst (omega arith) in
      let same : ds ≡ cs = cc in
      (rw same at whole, subst (λ l. IsCeil (length lst) (suc n) (length l)) same ceil)

-- ===== src/Stream/Search.antt =====
-- The search for one byte, and windows of a list.
use lithops.Base.{
  ℕ, zero, suc, ◌+◌, ◌-◌, ◌<◌, ◌≤◌, ◌≡◌, refl, ap, sym, ◌∙◌, some, List, [], ◌∷◌, ◌++◌, Text, take,
  drop, length, arith, inl, inr, Option-cases,
}
use lithops.Stream.Body.{find}

-- The bytes from a to b.
abbrev pub slice : ℕ → ℕ → Text → Text
slice a b t = take (b - a) (drop a t)

module _ {ℓ} {A : Type ℓ} where
  take_nil : (n : ℕ) → take {A = A} n [] ≡ []
  take_nil zero = refl
  take_nil (suc n) = refl

  drop_nil : (n : ℕ) → drop {A = A} n [] ≡ []
  drop_nil zero = refl
  drop_nil (suc n) = refl

  pub drop-drop : (m n : ℕ) (l : List A) → drop m (drop n l) ≡ drop (n + m) l
  drop-drop m zero l = ap (λ k. drop k l) (omega arith)
  drop-drop m (suc n) [] = drop_nil m ∙ sym (drop_nil (suc n + m))
  drop-drop m (suc n) (x ∷ l) =
      let e : suc (n + m) ≡ suc n + m = omega arith in drop-drop m n l ∙ ap (λ k. drop k (x ∷ l)) e

  pub drop-take : (m n : ℕ) (l : List A) → drop m (take n l) ≡ take (n - m) (drop m l)
  drop-take zero n l = ap (λ k. take k l) (omega arith)
  drop-take (suc m) zero l =
      let e : 0 ≡ 0 - suc m = omega arith in ap (λ k. take k (drop (suc m) l)) e
  drop-take (suc m) (suc n) [] = sym (take_nil (suc n - suc m))
  drop-take (suc m) (suc n) (x ∷ l) = drop-take m n l ∙ ap (λ k. take k (drop m l)) (omega arith)

  pub take-take : (m n : ℕ) (l : List A) → m ≤ n → take m (take n l) ≡ take m l
  take-take zero n l h = refl
  take-take (suc m) zero l h = elim h [ ]
  take-take (suc m) (suc n) [] h = refl
  take-take (suc m) (suc n) (x ∷ l) h = ap (λ r. x ∷ r) (take-take m n l (omega arith))

  pub take_all : (n : ℕ) (l : List A) → length l ≤ n → take n l ≡ l
  take_all zero [] h = refl
  take_all zero (x ∷ l) h = elim h [ ]
  take_all (suc n) [] h = refl
  take_all (suc n) (x ∷ l) h = ap (λ r. x ∷ r) (take_all n l (omega arith))

  pub take-append-take : (m n : ℕ) (l : List A) → take m l ++ take n (drop m l) ≡ take (m + n) l
  take-append-take zero n l = ap (λ k. take k l) (omega arith)
  take-append-take (suc m) n [] = take_nil n ∙ sym (take_nil (suc m + n))
  take-append-take (suc m) n (x ∷ l) =
      let e : suc (m + n) ≡ suc m + n = omega arith in
      ap (λ r. x ∷ r) (take-append-take m n l) ∙ ap (λ k. take k (x ∷ l)) e

module _ (c : ℕ) where
  pub find-lt : (s : Text) {d : ℕ} → find (c ∷ []) s ≡ some d → d < length s
  find-lt [] e = ground arith
  find-lt (x ∷ s) {d} e = elim (Option-cases (find (c ∷ []) s)) [
    | inl missing ↦ ground arith
    | inr (n, found) ↦ ground (arith, find-lt s found)
  ]

  -- A window that holds the first occurrence shows it.
  pub find-take :
      (n : ℕ) (s : Text) {d : ℕ}
      → find (c ∷ []) s ≡ some d
      → d < n
      → find (c ∷ []) (take n s) ≡ some d
  find-take zero s e h = elim h [ ]
  find-take (suc n) [] e h = e
  find-take (suc n) (x ∷ s) {d} e h = elim (Option-cases (find (c ∷ []) s)) [
    | inl missing ↦ ground arith
    | inr (m, found) ↦ ground (arith, find-take n s found)
  ]

  -- What is found from k on, an occurrence further on does not change until it is passed.
  pub find-drop :
      (k : ℕ) (s : Text) {d : ℕ}
      → find (c ∷ []) s ≡ some d
      → k ≤ d
      → find (c ∷ []) (drop k s) ≡ some (d - k)
  find-drop zero s {d} e h = e ∙ ap some (omega arith)
  find-drop (suc k) [] e h = ground arith
  find-drop (suc k) (x ∷ s) {d} e h = elim (Option-cases (find (c ∷ []) s)) [
    | inl missing ↦ ground arith
    | inr (m, found) ↦ ground (arith, find-drop k s found)
  ]

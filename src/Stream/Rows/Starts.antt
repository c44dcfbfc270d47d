-- ===== src/Stream/Rows/Starts.antt =====
-- Where rows start.
use lithops.Base.{
  ℕ, zero, suc, ◌+◌, ◌-◌, ◌<◌, ◌≤◌, ◌≡◌, ap, sym, ◌∙◌, Option, none, some, [], ◌∷◌, ◌++◌, Text,
  take, drop, length, length-drop, arith, inl, inr, Bool-cases, leb, leb→le, leb-false→lt,
  Option-cases,
}
use lithops.Partition.{chunk_threshold}
use lithops.Stream.Body.{find}
use lithops.Stream.Search.{find-lt, find-drop, drop-drop, slice, take-append-take}

abbrev pub row_end_of : ℕ → Text → Option ℕ → ℕ
row_end_of j t none = length t
row_end_of j t (some d) = suc (j + d)

-- The start of the first row that starts at k or later: behind a newline at k - 1 or later.
abbrev pub row_start : ℕ → Text → ℕ → ℕ
row_start c t zero = 0
row_start c t (suc j) = row_end_of j t (find (c ∷ []) (drop j t))

-- From every byte on, a newline follows within the threshold; so the last byte is one.
abbrev pub RowsFit : ℕ → Text → Type 0
RowsFit c t =
    (i : ℕ) → i < length t → (d : ℕ) × (find (c ∷ []) (drop i t) ≡ some d) × (d ≤ chunk_threshold)

module _ (c : ℕ) (t : Text) where
  pub row_start-le : (k : ℕ) → row_start c t k ≤ length t
  row_start-le zero = omega arith
  row_start-le (suc j) = elim (Option-cases (find (c ∷ []) (drop j t))) [
    | inl missing ↦ rw missing (omega arith)
    | inr (d, found) ↦ rw found (omega (arith, find-lt c (drop j t) found, length-drop j t))
  ]

  pub row_start_found :
      (j : ℕ) {d : ℕ} → find (c ∷ []) (drop j t) ≡ some d → row_start c t (suc j) ≡ suc (j + d)
  row_start_found j found = ap (row_end_of j t) found

  pub row_start_mono :
      (fit : RowsFit c t) (j k : ℕ) → j ≤ k → k ≤ length t → row_start c t j ≤ row_start c t k
  row_start_mono fit zero k h hk = omega arith
  row_start_mono fit (suc j) zero h hk = absurd (omega arith)
  row_start_mono fit (suc j) (suc k) h hk =
      let (d, found, _) = fit j (omega arith) in
      let (e, found', _) = fit k (omega arith) in
      elim (Bool-cases (leb k (j + d))) [
        | inl near ↦
            let le = leb→le k (j + d) near in
            let kd : k ≡ j + (k - j) = omega arith in
            let same = find-drop c (k - j) (drop j t) found (omega arith) in
            let moved : find (c ∷ []) (drop k t) ≡ some (d - (k - j)) =
              ap (find (c ∷ [])) (ap (λ n. drop n t) kd ∙ sym (drop-drop (k - j) j t)) ∙ same in
            omega (arith, row_start_found j found, row_start_found k moved)
        | inr far ↦
            omega
              (arith, leb-false→lt k (j + d) far, row_start_found j found, row_start_found k found')
      ]

  pub row_start_end : RowsFit c t → 0 < length t → row_start c t (length t) ≡ length t
  row_start_end fit h =
      let (d, found, _) = fit (length t - 1) (omega arith) in
      let last : length t ≡ suc (length t - 1) = omega arith in
      let lt = find-lt c (drop (length t - 1) t) found in
      ap (row_start c t) last
      ∙ omega (arith, row_start_found (length t - 1) found, lt, length-drop (length t - 1) t)

pub slice-append-slice :
    (a b e : ℕ) (t : Text) → a ≤ b → b ≤ e → slice a b t ++ slice b e t ≡ slice a e t
slice-append-slice a b e t h h' =
    let there : b ≡ a + (b - a) = omega arith in
    let behind : drop b t ≡ drop (b - a) (drop a t) =
      ap (λ n. drop n t) there ∙ sym (drop-drop (b - a) a t) in
    let whole : b - a + (e - b) ≡ e - a = omega arith in
    ap (λ r. take (b - a) (drop a t) ++ take (e - b) r) behind
    ∙ take-append-take (b - a) (e - b) (drop a t)
    ∙ ap (λ n. take n (drop a t)) whole

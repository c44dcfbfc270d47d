-- ===== src/Stream/Rows/Parts.antt =====
-- The text that one part gives: from the first row that starts in it to the first that does not.
use mathlib.Core.Path.{ap₂}
use lithops.Base.{
  ℕ, zero, suc, ◌+◌, ◌-◌, ◌<◌, ◌≤◌, ◌≡◌, ◌⊎◌, refl, ap, sym, ◌∙◌, true, false, none, some, [], ◌∷◌,
  Text, take, drop, length, length-drop, arith, inl, inr, Bool-cases, Option-cases, ◌==◌,
}
use lithops.Partition.{chunk_threshold}
use lithops.Stream.Body.{find, part_read, open_part, read_rows}
use lithops.Stream.Search.{drop-take, drop-drop, slice, find-lt}
use lithops.Stream.Rows.Window.{is_cut, skipped, fresh_part, read_rows_window}
use lithops.Stream.Rows.Starts.{row_start, row_start_found, RowsFit}

drop_cons : (j : ℕ) (t : Text) → j < length t → (b : ℕ) × (drop j t ≡ b ∷ drop (suc j) t)
drop_cons zero [] h = elim h [ ]
drop_cons zero (x ∷ t) h = (x, refl)
drop_cons (suc j) [] h = elim h [ ]
drop_cons (suc j) (x ∷ t) h = drop_cons j t (omega arith)

drop-take-slice :
    (size f n : ℕ) (t : Text) → drop f (take n (drop size t)) ≡ slice (size + f) (size + n) t
drop-take-slice size f n t =
    let e : n - f ≡ size + n - (size + f) = omega arith in
    drop-take f n (drop size t)
    ∙ ap (take (n - f)) (drop-drop f size t)
    ∙ ap (λ k. take k (drop (size + f) t)) e

-- The first newline behind a byte that is none.
find_behind :
    (c b : ℕ) (u : Text) {d : ℕ}
    → find (c ∷ []) (b ∷ u) ≡ some d
    → is_cut (b ∷ []) c ≡ true
    → (d' : ℕ) × (find (c ∷ []) u ≡ some d') × (d ≡ suc d')
find_behind c b u e h = elim (Option-cases (find (c ∷ []) u)) [
  | inl missing ↦ ground arith
  | inr (d', found) ↦ (d', found, ground arith)
]

no_cut :
    (c b : ℕ) (u : Text) {d : ℕ}
    → find (c ∷ []) (b ∷ u) ≡ some d
    → is_cut (b ∷ []) c ≡ false
    → d ≡ 0
no_cut c b u e h = ground arith

-- What a part skips is what stands before its first row.
cut_start :
    (c b w : ℕ) (u : Text) {d : ℕ}
    → find (c ∷ []) (b ∷ u) ≡ some d
    → d - 1 < w
    → (is_cut (b ∷ []) c ≡ true → (find (c ∷ []) u ≡ some (d - 1)) × (d - 1 < w))
      × (skipped (is_cut (b ∷ []) c) (d - 1) ≡ d)
cut_start c b w u {d} e h = elim (Bool-cases (is_cut (b ∷ []) c)) [
  | inl cut ↦
      let (d', found, more) = find_behind c b u e cut in
      let same : d' ≡ d - 1 = omega arith in
      ((λ _. (found ∙ ap some same, h)), rw cut (omega arith))
  | inr whole ↦ ((λ cut. cc), rw whole (sym (no_cut c b u e whole)))
]

-- A part that starts behind the first byte takes the byte before it.
part_read-behind :
    (j b cz last c : ℕ) (s : Text)
    → (part_read none (open_part (b ∷ s) cz (suc j, last) (c ∷ []))).0
      ≡ (read_rows none (fresh_part s cz c 1 (b ∷ []))).0
unfolding part_read open_part
part_read-behind j b cz last c s = let e : (suc j == 0) ≡ false = ground arith in rw e

module _ (c : ℕ) (t : Text) (fit : RowsFit c t) where
  -- A part that starts at `size` and has `cz` bytes, read through a window of `w` bytes.
  pub first_text :
      (cz w last : ℕ)
      → 0 < cz
      → cz ≤ length t
      → (cz + chunk_threshold ≤ w) ⊎ (length t ≤ w)
      → (part_read none (open_part (take w t) cz (0, last) (c ∷ []))).0
        ≡ slice (row_start c t 0) (row_start c t cz) t
  unfolding part_read open_part
  first_text cz w last pz h hw =
      let (d, found, le) = fit (cz - 1) (omega arith) in
      let lt = find-lt c (drop (cz - 1) t) found in
      let e : suc (cz - 1) ≡ cz = omega arith in
      let fits : cz + d ≤ w = omega (arith, length-drop (cz - 1) t) in
      let ends : cz + d ≡ row_start c t cz - 0 =
        omega (arith, row_start_found c t (cz - 1) found, ap (row_start c t) e) in
      read_rows_window c cz w t d pz h found fits 0 [] 0 (λ cut. cc) ∙ ap (λ n. take n t) ends

  pub next_text :
      (j cz w last : ℕ)
      → 0 < cz
      → suc (suc j) + cz ≤ length t
      → (cz + chunk_threshold ≤ w) ⊎ (length t - suc (suc j) ≤ w)
      → (part_read none (open_part (take (suc w) (drop (suc j) t)) cz (suc j, last) (c ∷ []))).0
        ≡ slice (row_start c t (suc (suc j))) (row_start c t (suc (suc j) + cz)) t
  unfolding part_read open_part
  next_text j cz w last pz h hw =
      let k = suc (suc j) in
      let u = drop k t in
      let (b, e) = drop_cons (suc j) t (omega arith) in
      let (d₀, found₀, le₀) = fit (suc j) (omega arith) in
      let behind : find (c ∷ []) (b ∷ u) ≡ some d₀ = ap (find (c ∷ [])) (sym e) ∙ found₀ in
      let (d, found, le) = fit (k + (cz - 1)) (omega arith) in
      let lt₀ = find-lt c (drop (suc j) t) found₀ in
      let lt = find-lt c (drop (k + (cz - 1)) t) found in
      let (cut, skip) = cut_start c b w u behind (omega (arith, length-drop (suc j) t)) in
      let fits : cz + d ≤ w = omega (arith, length-drop (k + (cz - 1)) t) in
      let from : k + d₀ ≡ row_start c t k = omega (arith, row_start_found c t (suc j) found₀) in
      let last_byte : suc (k + (cz - 1)) ≡ k + cz = omega arith in
      let to : k + (cz + d) ≡ row_start c t (k + cz) =
        omega (arith, row_start_found c t (k + (cz - 1)) found, ap (row_start c t) last_byte) in
      ap (λ r. (part_read none (open_part (take (suc w) r) cz (suc j, last) (c ∷ []))).0) e
      ∙ part_read-behind j b cz last c (take w u)
      ∙ read_rows_window c cz w u d pz (omega (arith, length-drop k t))
          (ap (find (c ∷ [])) (drop-drop (cz - 1) k t) ∙ found) fits 1 (b ∷ []) (d₀ - 1) cut
      ∙ ap (λ n. drop n (take (cz + d) u)) skip
      ∙ drop-take-slice k d₀ (cz + d) t
      ∙ ap₂ (λ x y. slice x y t) from to

-- ===== src/Stream/Rows/Window.antt =====
-- One read of all that a chunk's stream gives.
use mathlib.Core.Path.{ap₂}
use lithops.Base.{
  ℕ, suc, ◌+◌, ◌-◌, ◌<◌, ◌≤◌, ◌≡◌, refl, ap, ◌∙◌, Bool, true, false, not, ◌&&◌, none, some, [], ◌∷◌,
  Text, text_eq, take, drop, length, length-take, arith, leb, le→leb, if◌then◌else◌,
}
use lithops.Stream.Body.{find, Part, read_rows, is_empty, after_row, row_end}
use lithops.Stream.Search.{find-take, drop-take, take-take}

-- The first row of a part is cut when the byte before it is no newline.
abbrev pub is_cut : Text → ℕ → Bool
is_cut first_byte c = not (is_empty first_byte) && not (text_eq first_byte (c ∷ []))

abbrev pub skipped : Bool → ℕ → ℕ
skipped cut d = if cut then suc d else 0

abbrev pub fresh_part : Text → ℕ → ℕ → ℕ → Text → Part
fresh_part sb size c plusbytes first_byte = record {
  sb = sb;
  pos = 0;
  size = size;
  newline_char = c ∷ [];
  plusbytes = plusbytes;
  first_byte = first_byte;
  eof = false;
  first_read = true;
}

module _ (c cz w : ℕ) (u : Text) (d : ℕ) (pz : 0 < cz) (hu : cz ≤ length u)
    (found : find (c ∷ []) (drop (cz - 1) u) ≡ some d) (hw : cz + d ≤ w) where
  end_of_window :
      (if leb cz (0 + length (take w u))
        then row_end
            (length (take w u) - (0 + length (take w u) - cz))
            (find (c ∷ []) (drop (length (take w u) - (0 + length (take w u) - cz) - 1) (take w u)))
        else length (take w u))
      ≡ cz + d
  end_of_window =
      let len = length-take w u in
      let reached = le→leb cz (0 + length (take w u)) (omega arith) in
      let back : length (take w u) - (0 + length (take w u) - cz) ≡ cz = omega arith in
      let seen : find (c ∷ []) (drop (cz - 1) (take w u)) ≡ some d =
        rw (drop-take (cz - 1) w u)
          (find-take c (w - (cz - 1)) (drop (cz - 1) u) found (omega arith)) in
      rw (reached, back, seen)

  start_of_window :
      (cut : Bool) (d' : ℕ)
      → (cut ≡ true → (find (c ∷ []) u ≡ some d') × (d' < w))
      → (if cut then after_row (find (c ∷ []) (take w u)) else 0) ≡ skipped cut d'
  start_of_window true d' h = let (e, lt) = h refl in ap after_row (find-take c w u e lt)
  start_of_window false d' h = refl

  -- A window of w bytes of u that holds the chunk of cz bytes and the newline behind it, and the
  -- first newline of u where the first row is cut, gives u from its first whole row to that newline.
  pub read_rows_window :
      (plusbytes : ℕ) (first_byte : Text) (d' : ℕ)
      → (is_cut first_byte c ≡ true → (find (c ∷ []) u ≡ some d') × (d' < w))
      → (read_rows none (fresh_part (take w u) cz c plusbytes first_byte)).0
        ≡ drop (skipped (is_cut first_byte c) d') (take (cz + d) u)
  unfolding read_rows
  read_rows_window plusbytes first_byte d' h =
      ap₂ (λ f l. drop f (take l (take w u))) (start_of_window (is_cut first_byte c) d' h)
        end_of_window
      ∙ ap (drop (skipped (is_cut first_byte c) d')) (take-take (cz + d) w u hw)

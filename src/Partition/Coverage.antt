-- ===== src/Partition/Coverage.antt =====
-- Which bytes of an object the chunks of `split_object` read when no newline is given.
use native.Mathlib.Nat.{mod-eq_of_lt, mod-eq-sub-mod, zero-mod}
use lithops.Base.{
  ℕ, zero, suc, ◌+◌, ◌-◌, ◌%◌, ◌<◌, ◌≤◌, ◌≡◌, Bool, false, ◌&&◌, Option, none, some, List, [], ◌∷◌,
  inl, inr, ltb, leb, ◌==◌, if◌then◌else◌, Bool-cases, count_if, cons?, arith, ltb→lt, ltb-false→le,
  lt→ltb, le→ltb-false, lt→leb-false, ap, sym, ◌∙◌, leb→le, leb-false→lt,
}
use lithops.Partition.Split.{Chunk, chunk_at, split_loop, split_object}

-- A chunk with no range is the whole object.
abbrev pub covers : ℕ → Chunk → Bool
covers b c = elim c.data_byte_range [
  | none ↦ ltb b c.chunk_size
  | some (first, last) ↦ leb first b && leb b last
]

-- A round writes one chunk, of at least one byte.
chunk_at_pos :
    (s : ℕ) (nl : Bool) (cz size : ℕ) → size < s - 1 → 0 < cz → 0 < (chunk_at s nl cz size).1
unfolding chunk_at
chunk_at_pos s nl cz size h p = ground arith

pub split_loop_more :
    (f s : ℕ) (nl : Bool) (cz size k : ℕ)
    → size < s - 1
    → let c = chunk_at s nl cz size in
      split_loop (suc f) s nl cz size k
      ≡ cons?
          (record { data_byte_range = c.0; chunk_size = c.1; part = k + 1 })
          (split_loop f s nl c.1 (size + c.1) (k + 1))
unfolding split_loop
split_loop_more f s nl cz size k h = rw (lt→ltb size (s - 1) h, split_loop)

pub split_loop_done :
    (f s : ℕ) (nl : Bool) (cz size k : ℕ)
    → s - 1 ≤ size
    → split_loop (suc f) s nl cz size k ≡ some []
unfolding split_loop
split_loop_done f s nl cz size k h = rw (le→ltb-false size (s - 1) h, split_loop)

pub split_loop_total :
    (f s : ℕ) (nl : Bool) (cz size k : ℕ)
    → 0 < cz
    → s - size < f
    → (l : List Chunk) × (split_loop f s nl cz size k ≡ some l)
split_loop_total zero s nl cz size k p h = elim h [ ]
split_loop_total (suc f) s nl cz size k p h = elim (Bool-cases (ltb size (s - 1))) [
  | inl more ↦
      let lt = ltb→lt size (s - 1) more in
      let c = chunk_at s nl cz size in
      let pos : 0 < c.1 = chunk_at_pos s nl cz size lt p in
      let (l, e) = split_loop_total f s nl c.1 (size + c.1) (k + 1) pos (omega arith) in
      (
        (record { data_byte_range = c.0; chunk_size = c.1; part = k + 1 }) ∷ l,
        rw (split_loop_more f s nl cz size k lt) (ap (cons? _) e),
      )
  | inr done ↦ ([], split_loop_done f s nl cz size k (ltb-false→le size (s - 1) done))
]

abbrev count_covers : ℕ → Option (List Chunk) → ℕ
count_covers b none = 0
count_covers b (some l) = count_if (covers b) l

count_covers-cons :
    (b : ℕ) (c : Chunk) (o : Option (List Chunk)) {l : List Chunk}
    → o ≡ some l
    → count_covers b (cons? c o) ≡ (if covers b c then 1 else 0) + count_covers b o
count_covers-cons b c none e = cc
count_covers-cons b c (some l) e = ground arith

module _ (s cz : ℕ) (p : 0 < cz) (big : cz < s) where
  chunk_at_plain : (size : ℕ) → chunk_at s false cz size ≡ (some (size, size + cz - 1), cz)
  unfolding chunk_at
  chunk_at_plain size = rw (lt→leb-false s cz big)

  -- The count that the rest of the loop, from `size` on, adds up for a byte.
  abbrev count_from : ℕ → ℕ → ℕ
  count_from size b =
      if ltb b size
      then 0
      else if ltb b (s - 1)
      then 1
      else if (s - 1 - size) % cz == 0
      then 0
      else 1

  count_from_step :
      (size b : ℕ)
      → size < s - 1
      → b < s
      → count_from size b
        ≡ (if leb size b && leb b (size + cz - 1) then 1 else 0) + count_from (size + cz) b
  count_from_step size b lt bs = elim (Bool-cases (leb cz (s - 1 - size))) [
    | inl more ↦
        let same : (s - 1 - size) % cz ≡ (s - 1 - (size + cz)) % cz =
          mod-eq-sub-mod (leb→le cz (s - 1 - size) more) ∙ ap (λ (t : ℕ). t % cz) (omega arith) in
        ground arith
    | inr less ↦
        let rest : (s - 1 - size) % cz ≡ s - 1 - size =
          mod-eq_of_lt (leb-false→lt cz (s - 1 - size) less) in
        ground arith
  ]

  split_loop_count :
      (f size k b : ℕ)
      → b < s
      → s - size < f
      → count_covers b (split_loop f s false cz size k) ≡ count_from size b
  split_loop_count zero size k b bs h = elim h [ ]
  split_loop_count (suc f) size k b bs h = elim (Bool-cases (ltb size (s - 1))) [
    | inl more ↦
        let lt = ltb→lt size (s - 1) more in
        let (l, e) = split_loop_total f s false cz (size + cz) (k + 1) p (omega arith) in
        let ih = split_loop_count f (size + cz) (k + 1) b bs (omega arith) in
        rw (split_loop_more f s false cz size k lt, chunk_at_plain size)
          (count_covers-cons b _ _ e ∙ (sym (count_from_step size b lt bs ∙ ap (◌+◌ _) (sym ih))))
    | inr done ↦
        let le = ltb-false→le size (s - 1) done in
        rw (split_loop_done f s false cz size k le) (ground (arith, zero-mod cz))
  ]

  count_from_inner : (b : ℕ) → b + 1 < s → count_from 0 b ≡ 1
  count_from_inner b h = ground arith

  count_from_last : count_from 0 (s - 1) ≡ (if (s - 1) % cz == 0 then 0 else 1)
  count_from_last =
      let same : (s - 1 - 0) % cz ≡ (s - 1) % cz = ap (λ (t : ℕ). t % cz) (omega arith) in
      ground arith

-- Without a newline, a chunk size of at least one, below the object's size, cuts the object so
-- that each byte before the last lies in exactly one range, and the last byte in one or, if the
-- chunk size divides the number of bytes before it, in none.
pub split_object-covers :
    (s cz : ℕ)
    → 0 < cz
    → cz < s
    → (l : List Chunk) × (split_object s false cz ≡ some l)
      × ((b : ℕ) → b + 1 < s → count_if (covers b) l ≡ 1)
      × (count_if (covers (s - 1)) l ≡ (if (s - 1) % cz == 0 then 0 else 1))
unfolding split_object
split_object-covers s cz p big =
    let (l, e) = split_loop_total (s + 1) s false cz 0 0 p (omega arith) in
    let counted = λ (b : ℕ) (h : b < s).
      sym (ap (count_covers b) e) ∙ split_loop_count s cz p big (s + 1) 0 0 b h (omega arith) in
    (
      l,
      e,
      λ b h. counted b (omega arith) ∙ count_from_inner s cz p big b h,
      counted (s - 1) (omega arith) ∙ count_from_last s cz p big,
    )

-- ===== src/Partition/Number.antt =====
-- How many chunks an object is cut into, and `chunk_number` as the bound that it is meant to be.
use native.Mathlib.Nat.{
  div-add-mod, mod-lt, div-eq_of_lt, mod-eq_of_lt, div-eq-sub-div, mod-eq-sub-mod,
}
use lithops.Base.{
  ℕ, zero, suc, ◌+◌, ◌-◌, ◌*◌, ◌%◌, ◌<◌, ◌≤◌, ◌≡◌, refl, Bool, Option, none, some, List, [], ◌∷◌,
  inl, inr, ltb, leb, ◌==◌, if◌then◌else◌, Bool-cases, length, cons?, arith, ltb→lt, ltb-false→le,
  ap, leb→le, leb-false→lt,
}
use lithops.Partition.Split.{
  Chunk, chunk_at, split_loop, split_object, round_ratio, size_for_number,
}
use lithops.Partition.Coverage.{split_loop_more, split_loop_done, split_loop_total}

-- round(r / n + 0.5) is 0 at r = 0, a tie that goes to the even number, and 1 above it.
round_ratio_half : (r n : ℕ) → r < n → round_ratio (2 * r + n) (2 * n) ≡ (if r == 0 then 0 else 1)
unfolding round_ratio
round_ratio_half r n h = elim (Bool-cases (ltb (2 * r + n) (2 * n))) [
  | inl low ↦
      let lt = ltb→lt _ _ low in let q = div-eq_of_lt lt in let m = mod-eq_of_lt lt in ground arith
  | inr high ↦
      let le = ltb-false→le _ _ high in
      let p : 0 < 2 * n = omega arith in
      let less : 2 * r + n - 2 * n < 2 * n = omega arith in
      let q = div-eq-sub-div p le in
      let q' = div-eq_of_lt less in
      let m = mod-eq-sub-mod le in let m' = mod-eq_of_lt less in ground arith
]

-- A chunk number gives the object's size divided by it, rounded up.
size_for_number_bounds :
    (s n : ℕ) → 0 < n → (s ≤ n * size_for_number s n) × (n * size_for_number s n < s + n)
unfolding size_for_number
size_for_number_bounds s n p =
    let low = mod-lt s p in
    let up = round_ratio_half (s % n) n low in
    let whole = div-add-mod s n in
    elim (Bool-cases (s % n == 0)) [
      | inl even ↦ (rw (up, even) (grind arith), rw (up, even) (grind arith))
      | inr odd ↦ (rw (up, odd) (grind arith), rw (up, odd) (grind arith))
    ]

abbrev parts_of : Option (List Chunk) → ℕ
parts_of none = 0
parts_of (some l) = length l

parts_of-cons :
    (c : Chunk) (o : Option (List Chunk)) {l : List Chunk}
    → o ≡ some l
    → parts_of (cons? c o) ≡ suc (parts_of o)
parts_of-cons c none e = cc
parts_of-cons c (some l) e = refl

-- `n` chunks of `cz` bytes reach the byte before the last, and `n - 1` do not.
abbrev pub IsCeil : (bytes cz n : ℕ) → Type 0
IsCeil bytes cz n = (bytes ≤ n * cz) × (n * cz < bytes + cz)

parts_done :
    (s : ℕ) (nl : Bool) (f cz size k : ℕ)
    → 0 < f
    → s - 1 ≤ size
    → parts_of (split_loop f s nl cz size k) ≡ 0
parts_done s nl zero cz size k p h = elim p [ ]
parts_done s nl (suc f) cz size k p h = ap parts_of (split_loop_done f s nl cz size k h)

module _ (s cz : ℕ) (p : 0 < cz) (big : cz < s) where
  chunk_at_le :
      (nl : Bool) (size : ℕ)
      → size < s - 1
      → (0 < (chunk_at s nl cz size).1)
        × ((chunk_at s nl cz size).1 ≤ cz)
        × (size + (chunk_at s nl cz size).1 < s - 1 → (chunk_at s nl cz size).1 ≡ cz)
  unfolding chunk_at
  chunk_at_le nl size h = (ground arith, ground arith, ground arith)

  parts_of_more :
      (nl : Bool) (f size k : ℕ)
      → s - size < suc f
      → size < s - 1
      → let c = chunk_at s nl cz size in
        parts_of (split_loop (suc f) s nl cz size k)
        ≡ suc (parts_of (split_loop f s nl c.1 (size + c.1) (k + 1)))
  parts_of_more nl f size k h lt =
      let c = chunk_at s nl cz size in
      let pos : 0 < c.1 = (chunk_at_le nl size lt).0 in
      let (l, e) = split_loop_total f s nl c.1 (size + c.1) (k + 1) pos (omega arith) in
      rw (split_loop_more f s nl cz size k lt) (parts_of-cons _ _ e)

  split_loop_parts :
      (nl : Bool) (f size k : ℕ)
      → s - size < f
      → IsCeil (s - 1 - size) cz (parts_of (split_loop f s nl cz size k))
  split_loop_parts nl zero size k h = elim h [ ]
  split_loop_parts nl (suc f) size k h = elim (Bool-cases (ltb size (s - 1))) [
    | inr done ↦
        let le = ltb-false→le size (s - 1) done in
        rw (split_loop_done f s nl cz size k le) (omega arith)
    | inl more ↦
        let lt = ltb→lt size (s - 1) more in
        let c = chunk_at s nl cz size in
        let (pos, le, same) = chunk_at_le nl size lt in
        let step = parts_of_more nl f size k h lt in
        elim (Bool-cases (ltb (size + c.1) (s - 1))) [
          | inl again ↦
              let e = same (ltb→lt _ _ again) in
              let lt' : size + cz < s - 1 = rw e at (ltb→lt _ _ again) in
              let ih = split_loop_parts nl f (size + cz) (k + 1) (omega arith) in
              rw step (rw e (grind (arith, ih)))
          | inr last ↦
              let le' = ltb-false→le (size + c.1) (s - 1) last in
              rw step
                (rw (parts_done s nl f c.1 (size + c.1) (k + 1) (omega arith) le') (omega arith))
        ]
  ]

-- An object larger than a chunk of at least one byte is cut into the fewest chunks that reach its
-- last byte but one, with a newline or without.
pub split_object_parts :
    (s cz : ℕ) (nl : Bool)
    → 0 < cz
    → cz < s
    → (l : List Chunk) × (split_object s nl cz ≡ some l) × IsCeil (s - 1) cz (length l)
unfolding split_object
split_object_parts s cz nl p big =
    let (l, e) = split_loop_total (s + 1) s nl cz 0 0 p (omega arith) in
    let n : IsCeil (s - 1 - 0) cz (parts_of (some l)) =
      rw e at (split_loop_parts s cz p big nl (s + 1) 0 0 (omega arith)) in
    (l, e, (omega arith))

-- A chunk size that reaches the size of an object of two bytes or more leaves it whole: one chunk
-- with no range.
pub split_object_whole :
    (s cz : ℕ) (nl : Bool)
    → 1 < s
    → s ≤ cz
    → split_object s nl cz
      ≡ some ((record { data_byte_range = none; chunk_size = s; part = 1 }) ∷ [])
unfolding split_object split_loop
split_object_whole s cz nl h big =
    let e : s + 1 ≡ suc (suc (s - 1)) = omega arith in rw e (ground arith)

-- Cut by a chunk number of at least one, an object of two bytes or more gives at most that many
-- chunks, and at least one.
pub chunk_number_bounds :
    (s n : ℕ) (nl : Bool)
    → 0 < n
    → 1 < s
    → (l : List Chunk) × (split_object s nl (size_for_number s n) ≡ some l)
      × (length l ≤ n)
      × (0 < length l)
chunk_number_bounds s n nl p h =
    let cz = size_for_number s n in
    let (up, low) = size_for_number_bounds s n p in
    let pos : 0 < cz = grind arith in
    elim (Bool-cases (leb s cz)) [
      | inl whole ↦ (_, split_object_whole s cz nl h (leb→le s cz whole), omega arith, omega arith)
      | inr more ↦
          let big = leb-false→lt s cz more in
          let (l, e, (reach, least)) = split_object_parts s cz nl pos big in
          (l, e, grind arith, grind arith)
    ]

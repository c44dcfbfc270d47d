-- ===== src/Stream/Rows/Whole.antt =====
-- The chunks of an object with a newline give its rows, each once and in order.
use mathlib.Core.Path.{ap₂}
use native.Mathlib.Nat.{mod-eq-sub-mod, zero-mod}
use lithops.Base.{
  ℕ, zero, suc, ◌+◌, ◌-◌, ◌%◌, ◌<◌, ◌≤◌, ◌≡◌, ◌≢◌, ◌⊎◌, refl, ap, subst, sym, ◌∙◌, true, Option,
  none, some, List, [], ◌∷◌, ◌++◌, Text, take, drop, length, arith, inl, inr, Bool-cases, ltb,
  ltb→lt, ltb-false→le, cons?, if◌then◌else◌,
}
use lithops.Partition.{
  Chunk, chunk_at, split_loop, split_object, chunk_threshold, local_object, to_partition,
}
use lithops.Partition.Coverage.{split_loop_more, split_loop_done, split_loop_total}
use lithops.Stream.Body.{part_read, open_part}
use lithops.Stream.Load.{Fetch, load_object, read_all}
use lithops.Stream.Search.{slice, take_all}
use lithops.Stream.Rows.Starts.{
  row_start, row_start-le, row_start_mono, row_start_end, RowsFit, slice-append-slice,
}
use lithops.Stream.Rows.Parts.{first_text, next_text}

-- What the function of the user reads from the chunks of a file, put together.
module _ {P : Type 0} (fetch : Fetch) (path : Text) (params : P) (total c : ℕ) where
  abbrev pub chunk_text : Chunk → Text
  chunk_text chunk =
      read_all
        (load_object fetch (to_partition (local_object path) (some (c ∷ [])) params total chunk)).0

  abbrev pub chunk_texts : List Chunk → Text
  chunk_texts [] = []
  chunk_texts (chunk ∷ chunks) = chunk_text chunk ++ chunk_texts chunks

  abbrev texts : Option (List Chunk) → Text
  texts none = []
  texts (some chunks) = chunk_texts chunks

  texts-cons :
      (chunk : Chunk) (o : Option (List Chunk)) {l : List Chunk}
      → o ≡ some l
      → texts (cons? chunk o) ≡ chunk_text chunk ++ texts o
  texts-cons chunk none e = cc
  texts-cons chunk (some l) e = refl

module _ {P : Type 0} (fetch : Fetch) (path : Text) (params : P) (total c cz : ℕ) (p : 1 < cz)
    (big : cz < length (fetch.file path)) (fit : RowsFit c (fetch.file path)) where
  abbrev t : Text
  t = fetch.file path

  abbrev s : ℕ
  s = length (fetch.file path)

  abbrev text_at : ℕ → ℕ → Text
  text_at size k = chunk_text fetch path params total c (record {
    data_byte_range = (chunk_at s true cz size).0;
    chunk_size = (chunk_at s true cz size).1;
    part = k;
  })

  chunk_at_common :
      (size : ℕ)
      → size + cz < s
      → chunk_at s true cz size
        ≡ (some (if ltb 0 size then size - 1 else 0, size + cz + chunk_threshold), cz)
  unfolding chunk_at
  chunk_at_common size lt = ground arith

  chunk_at_last :
      (size : ℕ) → s ≤ size + cz → chunk_at s true cz size ≡ (some (size - 1, s - 1), s - size)
  unfolding chunk_at
  chunk_at_last size le = ground arith

  -- The rows of a chunk, where its range and size are known.
  abbrev RowsOf : (size first last n : ℕ) → Type 0
  RowsOf size first last n =
      (part_read none
        (open_part (take (last - first + 1) (drop first t)) n (first, last) (c ∷ []))).0
      ≡ slice (row_start c t size) (row_start c t (size + n)) t

  text_of_range :
      (size k first last n : ℕ)
      → chunk_at s true cz size ≡ (some (first, last), n)
      → RowsOf size first last n
      → text_at size k
        ≡ slice (row_start c t size) (row_start c t (size + (chunk_at s true cz size).1)) t
  unfolding load_object read_all
  text_of_range size k first last n e rows =
      ap
        (λ r.
          chunk_text fetch path params total c
            (record { data_byte_range = r.0; chunk_size = r.1; part = k }))
        e
      ∙ rows
      ∙ ap (λ r. slice (row_start c t size) (row_start c t (size + r.1)) t) (sym e)

  behind_rows :
      (j first last n w : ℕ)
      → 0 < n
      → suc (suc j) + n ≤ s
      → (n + chunk_threshold ≤ w) ⊎ (s - suc (suc j) ≤ w)
      → first ≡ suc j
      → last - first + 1 ≡ suc w
      → RowsOf (suc (suc j)) first last n
  behind_rows j first last n w pos fits window ef ew =
      ap₂ (λ a m. (part_read none (open_part (take m (drop a t)) n (a, last) (c ∷ []))).0) ef ew
      ∙ next_text c t fit j n w last pos fits window

  -- The part from `size` on, of whatever length, gives the rows that start in it.
  text_at_rows :
      (size k : ℕ)
      → (size ≡ 0) ⊎ (1 < size)
      → size < s - 1
      → text_at size k
        ≡ slice (row_start c t size) (row_start c t (size + (chunk_at s true cz size).1)) t
  text_at_rows zero k start lt =
      let w = 0 + cz + chunk_threshold - 0 + 1 in
      text_of_range 0 k 0 (0 + cz + chunk_threshold) cz (chunk_at_common 0 (omega arith)) (
        first_text c t fit cz w (0 + cz + chunk_threshold) (omega arith) (omega arith)
          (inl (omega arith))
        ∙ ap (λ n. slice 0 (row_start c t n) t) (omega arith))
  text_at_rows (suc zero) k start lt = absurd (omega arith)
  text_at_rows (suc (suc j)) k start lt = elim (Bool-cases (ltb (suc (suc j) + cz) s)) [
    | inl common ↦
        let lt' = ltb→lt (suc (suc j) + cz) s common in
        text_of_range (suc (suc j)) k _ _ _ (chunk_at_common (suc (suc j)) lt') (
          behind_rows j _ (suc (suc j) + cz + chunk_threshold) cz (cz + chunk_threshold + 1)
            (omega arith) (omega arith) (inl (omega arith)) (ground arith) (ground arith))
    | inr ends ↦
        let le = ltb-false→le (suc (suc j) + cz) s ends in
        text_of_range (suc (suc j)) k _ _ _ (chunk_at_last (suc (suc j)) le) (
          behind_rows j _ (s - 1) (s - suc (suc j)) (s - suc (suc j)) (omega arith) (omega arith)
            (inr (omega arith)) (omega arith) (omega arith))
  ]

  not_at_last :
      (size : ℕ)
      → size + cz < s
      → (s - 1 - size) % cz ≢ 0
      → (s - 1 - size) % cz ≡ (s - 1 - (size + cz)) % cz
      → size + cz < s - 1
  not_at_last size lt odd same = elim (Bool-cases (ltb (size + cz) (s - 1))) [
    | inl more ↦ ltb→lt _ _ more
    | inr last ↦
        let le = ltb-false→le _ _ last in
        absurd (odd (same ∙ ap (λ (n : ℕ). n % cz) (omega arith) ∙ zero-mod cz))
  ]

  -- What the rest of the loop reads, from the size m of the next chunk on.
  abbrev Rest : (f size k m : ℕ) → Type 0
  Rest f size k m =
      texts fetch path params total c (split_loop f s true m (size + m) (k + 1))
      ≡ slice (row_start c t (size + m)) s t

  Rest-empty : (f size k : ℕ) → s - size < suc f → size < s - 1 → Rest f size k (s - size)
  Rest-empty zero size k h lt = absurd (omega arith)
  Rest-empty (suc f) size k h lt =
      let there : s ≡ size + (s - size) = omega arith in
      let none_left : s - row_start c t s ≡ 0 =
        omega (arith, row_start_end c t fit (omega arith)) in
      ap (texts fetch path params total c)
        (split_loop_done f s true (s - size) (size + (s - size)) (k + 1) (omega arith))
      ∙ sym (ap (λ n. take n (drop (row_start c t s) t)) none_left)
      ∙ ap (λ n. slice (row_start c t n) s t) there

  split_loop_step :
      (f size k m : ℕ)
      → s - size < suc f
      → size < s - 1
      → (size ≡ 0) ⊎ (1 < size)
      → 0 < m
      → size + m ≤ s
      → m ≡ (chunk_at s true cz size).1
      → Rest f size k m
      → texts fetch path params total c (split_loop (suc f) s true cz size k)
        ≡ slice (row_start c t size) s t
  split_loop_step f size k m h lt start pos fits e rest =
      let n = (chunk_at s true cz size).1 in
      let (l, total_rest) =
        split_loop_total f s true n (size + n) (k + 1) (omega arith) (omega arith) in
      ap (texts fetch path params total c) (split_loop_more f s true cz size k lt)
      ∙ texts-cons fetch path params total c _ _ total_rest
      ∙ ap₂ ◌++◌ (text_at_rows size (k + 1) start lt) (subst (Rest f size k) e rest)
      ∙ slice-append-slice (row_start c t size) (row_start c t (size + n)) s t
          (row_start_mono c t fit size (size + n) (omega arith) (omega arith))
          (row_start-le c t (size + n))

  texts-split_loop :
      (f size k : ℕ)
      → s - size < f
      → size < s - 1
      → (s - 1 - size) % cz ≢ 0
      → (size ≡ 0) ⊎ (1 < size)
      → texts fetch path params total c (split_loop f s true cz size k)
        ≡ slice (row_start c t size) s t
  texts-split_loop zero size k h lt odd start = elim h [ ]
  texts-split_loop (suc f) size k h lt odd start = elim (Bool-cases (ltb (size + cz) s)) [
    | inl common ↦
        let lt' = ltb→lt (size + cz) s common in
        let same : (s - 1 - size) % cz ≡ (s - 1 - (size + cz)) % cz =
          mod-eq-sub-mod (omega arith) ∙ ap (λ (n : ℕ). n % cz) (omega arith) in
        let more : size + cz < s - 1 = not_at_last size lt' odd same in
        split_loop_step f size k cz h lt start (omega arith) (omega arith)
          (sym (ap (λ r. r.1) (chunk_at_common size lt')))
          (texts-split_loop f (size + cz) (k + 1) (omega arith) more (λ z. odd (same ∙ z))
            (inr (omega arith)))
    | inr ends ↦
        let le = ltb-false→le (size + cz) s ends in
        split_loop_step f size k (s - size) h lt start (omega arith) (omega arith)
          (sym (ap (λ r. r.1) (chunk_at_last size le))) (Rest-empty f size k h lt)
  ]

-- A local file in which a newline follows from every byte on within the threshold, so that one
-- ends it, is read whole: cut by a chunk size above 1 and below its length that does not divide
-- the length less one, its parts, each read to its end, give its contents in order, no row cut,
-- lost or read twice.
pub parts_give_whole :
    {P : Type 0} (fetch : Fetch) (path : Text) (params : P) (total c cz : ℕ)
    → 1 < cz
    → cz < length (fetch.file path)
    → RowsFit c (fetch.file path)
    → (length (fetch.file path) - 1) % cz ≢ 0
    → (l : List Chunk) × (split_object (length (fetch.file path)) true cz ≡ some l)
      × (chunk_texts fetch path params total c l ≡ fetch.file path)
unfolding split_object
parts_give_whole fetch path params total c cz p big fit odd =
    let s = length (fetch.file path) in
    let (l, e) = split_loop_total (s + 1) s true cz 0 0 (omega arith) (omega arith) in
    let odd' : (s - 1 - 0) % cz ≢ 0 = λ z. odd (ap (λ (n : ℕ). n % cz) (omega arith) ∙ z) in
    (
      l,
      e,
      sym (ap (texts fetch path params total c) e)
          ∙ texts-split_loop fetch path params total c cz p big fit (s + 1) 0 0 (omega arith)
              (omega arith) odd' (inl refl)
          ∙ take_all (s - 0) (fetch.file path) (omega arith),
    )

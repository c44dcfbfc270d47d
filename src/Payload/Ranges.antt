-- ===== src/Payload/Ranges.antt =====
-- What `agg_data` puts together, `get_function_data` takes apart.
use lithops.Base.{
  ℕ, zero, suc, ◌+◌, ◌-◌, ◌<◌, ◌≤◌, ◌≡◌, refl, ap, sym, ◌∙◌, Option, some, List, [], ◌∷◌, ◌++◌,
  Text, take, drop, length, length-append, length-take, length-drop, arith, take-append,
  drop-append, append-nil, append_assoc,
}
use lithops.Payload.Data.{
  Last, at, minus_one, last_byte, range_length, ranges_from, join, agg_data, last_range, cut_ranges,
  ranges, get_function_data,
}

abbrev pub NonEmpty : List Text → Type 0
NonEmpty [] = Unit
NonEmpty (s ∷ ss) = (0 < length s) × NonEmpty ss

range_length-last : (pos n : ℕ) → range_length (pos, last_byte (pos + n)) ≡ n
range_length-last pos n = ground arith

cut_ranges-join :
    (ss : List Text) (pos : ℕ) (rest : Text)
    → cut_ranges (join ss ++ rest) (ranges_from pos ss) ≡ ss
unfolding cut_ranges ranges_from
cut_ranges-join [] pos rest = refl
cut_ranges-join (s ∷ ss) pos rest =
    let whole : (s ++ join ss) ++ rest ≡ s ++ (join ss ++ rest) = append_assoc s (join ss) rest in
    let n = range_length-last pos (length s) in
    rw (n, whole, take-append s (join ss ++ rest), drop-append s (join ss ++ rest))
      (ap (λ r. s ∷ r) (cut_ranges-join ss (pos + length s) rest))

take-ranges :
    (n pos : ℕ) (ss : List Text) → take n (ranges_from pos ss) ≡ ranges_from pos (take n ss)
unfolding ranges_from
take-ranges zero pos ss = refl
take-ranges (suc n) pos [] = refl
take-ranges (suc n) pos (s ∷ ss) =
    ap (λ r. (pos, last_byte (pos + length s)) ∷ r) (take-ranges n (pos + length s) ss)

drop-ranges :
    (i pos : ℕ) (ss : List Text)
    → drop i (ranges_from pos ss) ≡ ranges_from (pos + length (join (take i ss))) (drop i ss)
unfolding ranges_from
drop-ranges zero pos ss = ap (λ p. ranges_from p ss) (omega arith)
drop-ranges (suc i) pos [] = refl
drop-ranges (suc i) pos (s ∷ ss) =
    drop-ranges i (pos + length s) ss
    ∙ ap (λ p. ranges_from p (drop i ss)) (omega (arith, length-append s (join (take i ss))))

join-append-join : (i : ℕ) (ss : List Text) → join (take i ss) ++ join (drop i ss) ≡ join ss
join-append-join zero ss = refl
join-append-join (suc i) [] = refl
join-append-join (suc i) (s ∷ ss) =
    append_assoc s (join (take i ss)) (join (drop i ss)) ∙ ap (λ r. s ++ r) (join-append-join i ss)

drop-join : (i : ℕ) (ss : List Text) → drop (length (join (take i ss))) (join ss) ≡ join (drop i ss)
drop-join i ss =
    ap (drop (length (join (take i ss)))) (sym (join-append-join i ss))
    ∙ drop-append (join (take i ss)) (join (drop i ss))

take-join : (i : ℕ) (ss : List Text) → take (length (join (take i ss))) (join ss) ≡ join (take i ss)
take-join i ss =
    ap (take (length (join (take i ss)))) (sym (join-append-join i ss))
    ∙ take-append (join (take i ss)) (join (drop i ss))

last_range-ranges :
    (s : Text) (ss : List Text) (pos : ℕ) (r : ℕ × Last)
    → (last_range r (ranges_from pos (s ∷ ss))).1 ≡ last_byte (pos + length (join (s ∷ ss)))
unfolding ranges_from
last_range-ranges s [] pos r = ap (λ l. last_byte (pos + length l)) (sym (append-nil s))
last_range-ranges s (s' ∷ ss) pos r =
    last_range-ranges s' ss (pos + length s) (pos, last_byte (pos + length s))
    ∙ ap last_byte (omega (arith, length-append s (join (s' ∷ ss))))

-- The storage answers a range as RFC 9110 says: with the bytes from the first to the last.
abbrev pub AnswersRanges : (Option (ℕ × Last) → Text) → Text → Type 0
AnswersRanges get_data stored =
    (first last : ℕ)
    → first ≤ last
    → get_data (some (first, at last)) ≡ take (last + 1 - first) (drop first stored)

last_byte-pos : (e : ℕ) → 0 < e → last_byte e ≡ at (e - 1)
last_byte-pos e h = ground arith

get_function_data-from :
    (get_data : Option (ℕ × Last) → Text) (stored : Text) (pos : ℕ) (ss : List Text)
    → AnswersRanges get_data stored
    → NonEmpty ss
    → 0 < length ss
    → take (length (join ss)) (drop pos stored) ≡ join ss
    → get_function_data get_data (ranges (ranges_from pos ss)) ≡ some ss
unfolding get_function_data ranges_from
get_function_data-from get_data stored pos [] answers full p there = elim p [ ]
get_function_data-from get_data stored pos (s ∷ ss) answers full p there =
    let total = length (join (s ∷ ss)) in
    let more = length-append s (join ss) in
    let some_bytes : 0 < pos + total = omega (arith, more, full.0) in
    let last : (last_range (pos, last_byte (pos + length s)) (ranges_from (pos + length s) ss)).1
        ≡ at (pos + total - 1) =
      last_range-ranges s ss pos (pos, minus_one) ∙ last_byte-pos (pos + total) some_bytes in
    let width : pos + total - 1 + 1 - pos ≡ total = omega arith in
    let forward : pos ≤ pos + total - 1 = omega (arith, more, full.0) in
    let got : get_data (some (pos, at (pos + total - 1))) ≡ join (s ∷ ss) ++ [] =
      answers pos (pos + total - 1) forward
      ∙ ap (λ n. take n (drop pos stored)) width
      ∙ there
      ∙ sym (append-nil (join (s ∷ ss))) in
    ap (λ l. some (cut_ranges (get_data (some (pos, l))) (ranges_from pos (s ∷ ss)))) last
    ∙ ap (λ x. some (cut_ranges x (ranges_from pos (s ∷ ss)))) got
    ∙ ap some (cut_ranges-join (s ∷ ss) pos [])

NonEmpty-take : (n : ℕ) (ss : List Text) → NonEmpty ss → NonEmpty (take n ss)
NonEmpty-take zero ss h = tt
NonEmpty-take (suc n) [] h = tt
NonEmpty-take (suc n) (s ∷ ss) h = (h.0, NonEmpty-take n ss h.1)

NonEmpty-drop : (n : ℕ) (ss : List Text) → NonEmpty ss → NonEmpty (drop n ss)
NonEmpty-drop zero ss h = h
NonEmpty-drop (suc n) [] h = tt
NonEmpty-drop (suc n) (s ∷ ss) h = NonEmpty-drop n ss h.1

-- A worker that gets the ranges of the calls from the i-th on, where i is one of them, n of them
-- at most and n not 0, out of those that `agg_data` made of data of which none is empty, loads
-- exactly the data of these calls, in order, from a storage that answers ranges.
pub get_function_data-agg_data :
    (data_strs : List Text) (i n : ℕ) (get_data : Option (ℕ × Last) → Text)
    → NonEmpty data_strs
    → AnswersRanges get_data (agg_data data_strs).0
    → i < length data_strs
    → 0 < n
    → get_function_data get_data (ranges (take n (drop i (agg_data data_strs).1)))
      ≡ some (take n (drop i data_strs))
unfolding agg_data
get_function_data-agg_data data_strs i n get_data full answers lt p =
    let rest = drop i data_strs in
    let pos = 0 + length (join (take i data_strs)) in
    let skipped : drop pos (join data_strs) ≡ join rest =
      ap (λ k. drop k (join data_strs)) (omega arith) ∙ drop-join i data_strs in
    ap (λ r. get_function_data get_data (ranges r))
      (ap (take n) (drop-ranges i 0 data_strs) ∙ take-ranges n pos rest)
    ∙ get_function_data-from get_data (join data_strs) pos (take n rest) answers
        (NonEmpty-take n rest (NonEmpty-drop i data_strs full))
        (omega (arith, length-take n rest, length-drop i data_strs))
        (ap (take (length (join (take n rest)))) skipped ∙ take-join n rest)

-- ===== src/Executor/Names.antt =====
-- The ids of jobs tell them apart, and are ids in the storage's names.
use lithops.Base.{
  ℕ, zero, suc, ◌+◌, ◌-◌, ◌*◌, ◌/◌, ◌%◌, ◌<◌, ◌≤◌, ◌≡◌, refl, ap, sym, ◌∙◌, [], ◌∷◌, ◌++◌, Text,
  ◌==◌, text_eq, text_eq_refl, text_eq→eq, ◌&&◌, length, Lacks, ltb, Bool-cases, ltb→lt,
  ltb-false→le, ◌⊎◌, inl, inr, arith,
}
use lithops.Storage.Names.{IsId}
use lithops.Executor.Ids.{digits, str, value_from, int, zeros, zfill, job_name, replace}

value_from-append :
    (acc : ℕ) (s t : Text) → value_from acc (s ++ t) ≡ value_from (value_from acc s) t
value_from-append acc [] t = refl
value_from-append acc (c ∷ s) t = value_from-append (acc * 10 + (c - b'0')) s t

value_from-zeros : (n : ℕ) (s : Text) → value_from 0 (zeros n ++ s) ≡ value_from 0 s
value_from-zeros zero s = refl
value_from-zeros (suc n) s = value_from-zeros n s

value_from-digits : (fuel n : ℕ) → n < fuel → value_from 0 (digits fuel n) ≡ n
value_from-digits zero n h = absurd (omega arith)
value_from-digits (suc fuel) n h = elim (Bool-cases (ltb n 10)) [
  | inl small ↦ rw small (omega arith)
  | inr large ↦
      let le = ltb-false→le n 10 large in
      let front = value_from-digits fuel (n / 10) (omega arith) in
      rw large
        (value_from-append 0 (digits fuel (n / 10)) ((b'0' + n % 10) ∷ []) ∙ omega (arith, front))
]

-- `int` reads what `str` and `zfill` write.
pub int-zfill : (width n : ℕ) → int (zfill width (str n)) ≡ n
int-zfill width n =
    value_from-zeros (width - length (str n)) (str n) ∙ value_from-digits (suc n) n (omega arith)

job_number : (n : ℕ) → value_from 0 (zfill 3 (str n)) ≡ n
job_number n = int-zfill 3 n

AllDigits : Text → Type 0
AllDigits [] = Unit
AllDigits (c ∷ s) = (b'0' ≤ c) × (c ≤ b'9') × AllDigits s

AllDigits-append : (s t : Text) → AllDigits s → AllDigits t → AllDigits (s ++ t)
unfolding AllDigits
AllDigits-append [] t h k = k
AllDigits-append (c ∷ s) t (low, high, h) k = (low, high, AllDigits-append s t h k)

AllDigits-zeros : (n : ℕ) → AllDigits (zeros n)
unfolding AllDigits
AllDigits-zeros zero = tt
AllDigits-zeros (suc n) = (omega arith, omega arith, AllDigits-zeros n)

AllDigits-digits : (fuel n : ℕ) → AllDigits (digits fuel n)
unfolding AllDigits
AllDigits-digits zero n = tt
AllDigits-digits (suc fuel) n = elim (Bool-cases (ltb n 10)) [
  | inl small ↦ let lt = ltb→lt n 10 small in rw (digits, small) (omega arith, omega arith, tt)
  | inr large ↦
      rw (digits, large)
        (AllDigits-append (digits fuel (n / 10)) ((b'0' + n % 10) ∷ [])
          (AllDigits-digits fuel (n / 10)) (omega arith, omega arith, tt))
]

AllDigits-Lacks : (c : ℕ) (s : Text) → (c < b'0') ⊎ (b'9' < c) → AllDigits s → Lacks c s
unfolding AllDigits
AllDigits-Lacks c [] out h = tt
AllDigits-Lacks c (x ∷ s) out (low, high, h) =
    (elim out [ inl below ↦ ground arith | inr above ↦ ground arith ], AllDigits-Lacks c s out h)

replace-Lacks : (a b : ℕ) (s : Text) → Lacks a s → replace a b s ≡ s
replace-Lacks a b [] h = refl
replace-Lacks a b (x ∷ s) h = rw (replace, h.0) (ap (λ r. x ∷ r) (replace-Lacks a b s h.1))

number : (n : ℕ) → AllDigits (zfill 3 (str n))
number n =
    AllDigits-append (zeros (3 - length (str n))) (str n) (AllDigits-zeros (3 - length (str n)))
      (AllDigits-digits (suc n) n)

text_eq-zfill : (n m : ℕ) → text_eq (zfill 3 (str n)) (zfill 3 (str m)) ≡ (n == m)
text_eq-zfill n m = elim (Bool-cases (n == m)) [
  | inl same ↦ let e : n ≡ m = ground arith in rw (e, text_eq_refl (zfill 3 (str m))) (ground arith)
  | inr other ↦ elim (Bool-cases (text_eq (zfill 3 (str n)) (zfill 3 (str m)))) [
    | inl equal ↦
        let texts = text_eq→eq (zfill 3 (str n)) (zfill 3 (str m)) equal in
        let e : n ≡ m = sym (job_number n) ∙ ap (value_from 0) texts ∙ job_number m in
        absurd (ground arith)
    | inr apart ↦ apart ∙ sym other
  ]
]

-- For a letter, or any character above the digits: two jobs have the same id exactly when they are
-- of the same kind and have the same number; the id has no `.`, no `/` and no `-`; and the id of a
-- reduce job is that of its map job under the other letter.
pub job_name_lem :
    (t u n m : ℕ)
    → b'9' < t
    → (text_eq (job_name t n) (job_name u m) ≡ (t == u) && (n == m))
      × IsId (job_name t n)
      × Lacks b'-' (job_name t n)
      × (replace b'M' b'R' (job_name b'M' n) ≡ job_name b'R' n)
unfolding job_name
job_name_lem t u n m letter =
    let text = zfill 3 (str n) in
    let all = number n in
    let lacks : (c : ℕ) → c < b'0' → Lacks c (t ∷ text) =
      λ c low. (ground arith, AllDigits-Lacks c text (inl low) all) in
    let no_map = AllDigits-Lacks b'M' text (inr (omega arith)) all in
    (
      ap (λ b. t == u && b) (text_eq-zfill n m),
      (lacks b'/' (omega arith), lacks b'.' (omega arith)),
      lacks b'-' (omega arith),
      ap (λ r. b'R' ∷ r) (replace-Lacks b'M' b'R' text no_map),
    )

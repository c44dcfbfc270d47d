-- ===== src/Wait/Enough.antt =====
-- What `_check_done` waits for.
use native.Mathlib.Nat.{div-add-mod, mod-lt}
use lithops.Base.{
  ℕ, ◌+◌, ◌*◌, ◌/◌, ◌<◌, ◌≤◌, ◌≡◌, sym, ◌∙◌, Bool, not, List, [], ◌∷◌, length, keep, count_if, leb,
  leb→le, leb-false→lt, le→leb, lt→leb-false, Bool-cases, inl, inr, arith,
}
use lithops.Future.{State}
use lithops.Wait.Check.{percentage, all_completed, counts, fs_not_done, fs_to_wait, check_done}

le_div : (m n k : ℕ) → 0 < n → m * n ≤ k → m ≤ k / n
le_div m n k p h =
    let whole = div-add-mod k n in
    let low = mod-lt k p in
    elim (Bool-cases (leb m (k / n))) [
      | inl le ↦ leb→le m (k / n) le
      | inr gt ↦ let lt = leb-false→lt m (k / n) gt in absurd (grind arith)
    ]

div_le : (m n k : ℕ) → 0 < n → m ≤ k / n → m * n ≤ k
div_le m n k p h = let whole = div-add-mod k n in grind arith

ceil_le : (k t : ℕ) → k ≤ t * 100 → (k + 99) / 100 ≤ t
ceil_le k t h = omega arith

le_ceil : (k t : ℕ) → (k + 99) / 100 ≤ t → k ≤ t * 100
le_ceil k t h = omega arith

lt_ceil : (n len t : ℕ) → 0 < len → t * 100 / len < n → t < (n * len + 99) / 100
lt_ceil n len t p lt = elim (Bool-cases (leb ((n * len + 99) / 100) t)) [
  | inl le ↦
      let reach = le_ceil (n * len) t (leb→le ((n * len + 99) / 100) t le) in
      let back = le_div n len (t * 100) p reach in absurd (omega arith)
  | inr gt ↦ leb-false→lt ((n * len + 99) / 100) t gt
]

-- For a list that is not empty, a wait for a percentage ends exactly when at least `fs_to_wait` of
-- its futures are done, the number that the progress bar counts up to for that list.
pub check_done-fs_to_wait :
    (fs : List State) (n : ℕ) (download_results : Bool)
    → 0 < length fs
    → check_done fs (percentage n) download_results
      ≡ leb (fs_to_wait n (length fs)) (count_if (counts download_results) fs)
unfolding check_done fs_to_wait
check_done-fs_to_wait fs n download_results p =
    let t = count_if (counts download_results) fs in
    elim (Bool-cases (leb n (t * 100 / length fs))) [
      | inl enough ↦
          let le = div_le n (length fs) (t * 100) p (leb→le n (t * 100 / length fs) enough) in
          enough ∙ sym (le→leb _ _ (ceil_le (n * length fs) t le))
      | inr few ↦
          let lt = leb-false→lt n (t * 100 / length fs) few in
          few ∙ sym (lt→leb-false _ _ (lt_ceil n (length fs) t p lt))
    ]

counts_all :
    (p : State → Bool) (fs : List State)
    → length (keep (λ s. not (p s)) fs) + count_if p fs ≡ length fs
counts_all p [] = omega arith
counts_all p (f ∷ fs) = ground (arith, counts_all p fs)

-- For a list that is not empty, a wait for all ends exactly when no future is left that is not
-- done.
pub check_done_all :
    (fs : List State) (download_results : Bool)
    → 0 < length fs
    → check_done fs all_completed download_results
      ≡ leb (length (fs_not_done download_results fs)) 0
unfolding check_done fs_not_done
check_done_all fs download_results p =
    let sum = counts_all (counts download_results) fs in
    let t = count_if (counts download_results) fs in
    elim (Bool-cases (leb 100 (t * 100 / length fs))) [
      | inl enough ↦
          let le = div_le 100 (length fs) (t * 100) p (leb→le 100 (t * 100 / length fs) enough) in
          enough ∙ sym (le→leb _ 0 (omega arith))
      | inr few ↦
          let lt = leb-false→lt 100 (t * 100 / length fs) few in
          let short = lt_ceil 100 (length fs) t p lt in few ∙ sym (lt→leb-false _ 0 (omega arith))
    ]

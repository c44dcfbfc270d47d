-- ===== src/Wait/Check.antt =====
-- `_check_done`, and the lists that `wait` gives back. A list of futures is that of their states.
use lithops.Base.{
  ℕ, ◌+◌, ◌*◌, ◌/◌, Bool, not, ◌||◌, List, length, keep, count_if, leb, if◌then◌else◌,
}
use lithops.Future.{State, is_success, is_done}

-- ALWAYS, ANY_COMPLETED, ALL_COMPLETED, and any other percentage.
pub data ReturnWhen : Type 0 where
  always any_completed all_completed : ReturnWhen
  percentage : ℕ → ReturnWhen

-- The test for a future that counts as done.
abbrev pub counts : Bool → State → Bool
counts download_results s = if download_results then is_done s else is_success s || is_done s

unfoldable pub fs_done : Bool → List State → List State
fs_done download_results fs = keep (counts download_results) fs

unfoldable pub fs_not_done : Bool → List State → List State
fs_not_done download_results fs = keep (λ s. not (counts download_results s)) fs

-- math.ceil(return_when * n / 100), of a percentage.
unfoldable pub fs_to_wait : ℕ → ℕ → ℕ
fs_to_wait return_when n = (return_when * n + 99) / 100

abbrev pub percent : ℕ → List State → Bool → Bool
percent return_when fs download_results =
    leb return_when (count_if (counts download_results) fs * 100 / length fs)

-- `_check_done`, of a list that is not empty: `wait` leaves before it otherwise.
unfoldable pub check_done : List State → ReturnWhen → Bool → Bool
check_done fs always download_results = percent 0 fs download_results
check_done fs any_completed download_results = leb 1 (count_if (counts download_results) fs)
check_done fs all_completed download_results = percent 100 fs download_results
check_done fs (percentage n) download_results = percent n fs download_results

-- ===== src/Base/Int.antt =====
-- Python's indices: signed integers over the native numbers, under the library's names.
use Prim.Native.Nat.{ℕ, zero, suc, ◌+◌, ◌-◌}
use mathlib.Core.List.{List}
use mathlib.Core.Option.{Option, none, some}
use lithops.Base.Tests.{ltb, leb, if◌then◌else◌}
use lithops.Base.Lists.{length, take, drop}

-- `negsuc n` is -(n + 1).
pub data ℤ : Type 0 where
  pos : ℕ → ℤ
  negsuc : ℕ → ℤ

abbrev pub suc_ℤ : ℤ → ℤ
suc_ℤ (pos n) = pos (suc n)
suc_ℤ (negsuc zero) = pos 0
suc_ℤ (negsuc (suc n)) = negsuc n

abbrev pub pred_ℤ : ℤ → ℤ
pred_ℤ (pos zero) = negsuc 0
pred_ℤ (pos (suc n)) = pos n
pred_ℤ (negsuc n) = negsuc (suc n)

-- b - a, and 0 where that is negative: how many numbers `range(a, b)` has.
abbrev pub range_size : ℤ → ℤ → ℕ
range_size (pos a) (pos b) = b - a
range_size (pos a) (negsuc b) = 0
range_size (negsuc a) (pos b) = suc (a + b)
range_size (negsuc a) (negsuc b) = a - b

-- Of n elements, the one that an index means: a negative index counts from the end.
abbrev pub position : ℕ → ℤ → Option ℕ
position n (pos i) = if ltb i n then some i else none
position n (negsuc i) = if ltb i n then some (n - suc i) else none

-- Of n elements, where a bound of a slice lies.
abbrev pub bound : ℕ → ℤ → ℕ
bound n (pos i) = if leb n i then n else i
bound n (negsuc i) = n - suc i

-- xs[lo:hi]
abbrev pub slice {ℓ} : {A : Type ℓ} → (lo hi : Option ℤ) → List A → List A
slice lo hi xs =
    let n = length xs in
    let from : ℕ = elim lo [ none ↦ 0 | some a ↦ bound n a ] in
    let to : ℕ = elim hi [ none ↦ n | some b ↦ bound n b ] in drop from (take to xs)

-- ===== src/Multiprocessing/Conditions/Members.antt =====
-- Lists of keys without repetitions, and what their elements satisfy.
use lithops.Base.{
  ℕ, ◌-◌, ◌≡◌, ◌≢◌, refl, sym, Bool, true, false, none, some, List, [], ◌∷◌, ◌++◌, length, take_all,
  ◌==◌, if◌then◌else◌, pos, negsuc, arith,
}
use lithops.Redis.{first, rest, range_of}
use lithops.Multiprocessing.Conditions.Defs.{NotIn}

abbrev pub has : ℕ → List ℕ → Bool
has x [] = false
has x (y ∷ ys) = if y == x then true else has x ys

abbrev pub All {ℓ} : (ℕ → Type ℓ) → List ℕ → Type ℓ
All P [] = Unit
All P (x ∷ xs) = P x × All P xs

pub All-map {ℓ κ} :
    {P : ℕ → Type ℓ} {Q : ℕ → Type κ} (xs : List ℕ) → ((x : ℕ) → P x → Q x) → All P xs → All Q xs
All-map [] f a = tt
All-map (x ∷ xs) f (p, a) = (f x p, All-map xs f a)

pub All-apart {ℓ κ} :
    {P : ℕ → Type ℓ} {Q : ℕ → Type κ} {y : ℕ} (xs : List ℕ)
    → NotIn y xs
    → ((x : ℕ) → x ≢ y → P x → Q x)
    → All P xs
    → All Q xs
All-apart [] n f a = tt
All-apart (x ∷ xs) (ne, n) f (p, a) = (f x ne p, All-apart xs n f a)

pub range_of-all : (xs : List ℕ) → range_of (pos 0) (negsuc 0) xs ≡ xs
range_of-all xs =
    let size : length xs - 0 - 0 ≡ length xs = omega arith in
    rw size (take_all (length xs) xs (omega arith))

pub first-none : (xs : List ℕ) → first xs ≡ none → xs ≡ []
first-none [] e = refl
first-none (x ∷ xs) e = cc

pub first-rest : (xs : List ℕ) {v : ℕ} → first xs ≡ some v → xs ≡ v ∷ rest xs
first-rest [] e = cc
first-rest (x ∷ xs) e = cc

-- An element taken out of a list without repetitions.
abbrev pub Distinct : List ℕ → Type 0
Distinct [] = Unit
Distinct (x ∷ xs) = NotIn x xs × Distinct xs

NotIn-middle :
    (x : ℕ) (before after : List ℕ) (y : ℕ)
    → NotIn x (before ++ y ∷ after)
    → (y ≢ x) × NotIn x (before ++ after)
NotIn-middle x [] after y n = n
NotIn-middle x (z ∷ before) after y (ne, n) =
    let (other, later) = NotIn-middle x before after y n in (other, (ne, later))

pub Distinct-middle :
    (before after : List ℕ) (y : ℕ)
    → Distinct (before ++ y ∷ after)
    → Distinct (before ++ after) × NotIn y (before ++ after)
Distinct-middle [] after y (n, d) = (d, n)
Distinct-middle (x ∷ before) after y (n, d) =
    let (apart, out) = NotIn-middle x before after y n in
    let (rest, later) = Distinct-middle before after y d in
    ((out, rest), ((λ e. apart (sym e)), later))

pub All-middle {ℓ} :
    (P : ℕ → Type ℓ) (before after : List ℕ) (y : ℕ)
    → All P (before ++ y ∷ after)
    → P y × All P (before ++ after)
All-middle P [] after y a = a
All-middle P (x ∷ before) after y (p, a) =
    let (here, others) = All-middle P before after y a in (here, (p, others))

pub has-later : (x y : ℕ) (ys : List ℕ) → y ≢ x → has x (y ∷ ys) ≡ true → has x ys ≡ true
has-later x y ys ne e = ground arith

pub has-append : (x : ℕ) (xs ys : List ℕ) → has x xs ≡ true → has x (xs ++ ys) ≡ true
has-append x [] ys e = cc
has-append x (y ∷ xs) ys e = ground (arith, has-append x xs ys)

pub has-snoc : (x : ℕ) (xs : List ℕ) → has x (xs ++ x ∷ []) ≡ true
has-snoc x [] = ground arith
has-snoc x (y ∷ xs) = ground (arith, has-snoc x xs)

pub NotIn-snoc : (k x : ℕ) (xs : List ℕ) → NotIn k xs → x ≢ k → NotIn k (xs ++ x ∷ [])
NotIn-snoc k x [] n ne = (ne, tt)
NotIn-snoc k x (y ∷ xs) (apart, n) ne = (apart, NotIn-snoc k x xs n ne)

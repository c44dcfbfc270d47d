-- ===== src/Base/Texts.antt =====
-- Texts that the program takes apart, as lists of code points.
use Prim.Native.Nat.{ℕ}
use Prim.Native.Char.{code}
use Prim.Native.String.{String}
use mathlib.Core.Path.{◌≡◌, refl}
use mathlib.Core.Bool.{Bool, true, false, ◌&&◌}
use mathlib.Core.Option.{Option, none, some}
use mathlib.Core.List.{List, [], ◌∷◌, ◌++◌}
use native.Mathlib.Omega.{arith}
use lithops.Base.Tests.{◌==◌, if◌then◌else◌}
use lithops.Base.Lists.{drop}

abbrev pub Text : Type 0
Text = List ℕ

abbrev pub codes : String → Text
codes String.[] = []
codes (String.◌∷◌ c s) = code c ∷ codes s

abbrev pub text_eq : Text → Text → Bool
text_eq [] [] = true
text_eq [] (y ∷ ys) = false
text_eq (x ∷ xs) [] = false
text_eq (x ∷ xs) (y ∷ ys) = x == y && text_eq xs ys

-- s.startswith(pre)
abbrev pub starts_with : Text → Text → Bool
starts_with [] s = true
starts_with (p ∷ pre) [] = false
starts_with (p ∷ pre) (x ∷ s) = p == x && starts_with pre s

-- s.endswith(c), for one character.
abbrev pub ends_with : ℕ → Text → Bool
ends_with c [] = false
ends_with c (x ∷ []) = x == c
ends_with c (x ∷ y ∷ s) = ends_with c (y ∷ s)

abbrev pub before : ℕ → Option (Text × Text) → Option (Text × Text)
before x none = none
before x (some (a, b)) = some (x ∷ a, b)

-- What stands before and behind the first occurrence of a character: `s.split(c, 1)`.
abbrev pub cut : ℕ → Text → Option (Text × Text)
cut c [] = none
cut c (x ∷ s) = let rest = before x (cut c s) in if x == c then some ([], s) else rest

-- The same at the last occurrence: `s.rsplit(c, 1)`.
abbrev pub rcut : ℕ → Text → Option (Text × Text)
rcut c [] = none
rcut c (x ∷ s) = elim (rcut c s) [
  | some (a, b) ↦ some (x ∷ a, b)
  | none ↦ if x == c then some ([], s) else none
]

-- The same at the first `://`.
abbrev pub cut_scheme : Text → Option (Text × Text)
cut_scheme [] = none
cut_scheme (x ∷ s) =
    let rest = before x (cut_scheme s) in
    if starts_with (codes "://") (x ∷ s) then some ([], drop 2 s) else rest

-- The character does not occur.
abbrev pub Lacks : ℕ → Text → Type 0
Lacks c [] = Unit
Lacks c (x ∷ s) = ((x == c) ≡ false) × Lacks c s

pub text_eq→eq : (s t : Text) → text_eq s t ≡ true → s ≡ t
text_eq→eq [] [] h = refl
text_eq→eq [] (y ∷ t) h = ground arith
text_eq→eq (x ∷ s) [] h = ground arith
text_eq→eq (x ∷ s) (y ∷ t) h = ground (arith, text_eq→eq s t)

pub text_eq_refl : (s : Text) → text_eq s s ≡ true
text_eq_refl [] = refl
text_eq_refl (x ∷ s) = ground (arith, text_eq_refl s)

pub cut-append : (c : ℕ) (a b : Text) → Lacks c a → cut c (a ++ c ∷ b) ≡ some (a, b)
cut-append c [] b h = ground arith
cut-append c (x ∷ a) b h = ground (arith, cut-append c a b h.1)

pub rcut-none : (c : ℕ) (s : Text) → Lacks c s → rcut c s ≡ none
rcut-none c [] h = refl
rcut-none c (x ∷ s) h = ground (arith, rcut-none c s h.1)

pub rcut-append : (c : ℕ) (a b : Text) → Lacks c b → rcut c (a ++ c ∷ b) ≡ some (a, b)
rcut-append c [] b h = ground (arith, rcut-none c b h)
rcut-append c (x ∷ a) b h = ground (arith, rcut-append c a b h)

-- `:` opens every `://`.
pub cut_scheme-none : (s : Text) → Lacks b':' s → cut_scheme s ≡ none
cut_scheme-none [] h = refl
cut_scheme-none (x ∷ s) h = ground (arith, cut_scheme-none s h.1)

pub cut_scheme-append :
    (a b : Text) → Lacks b':' a → cut_scheme (a ++ (codes "://" ++ b)) ≡ some (a, b)
cut_scheme-append [] b h = refl
cut_scheme-append (x ∷ a) b h = ground (arith, cut_scheme-append a b h.1)

-- ===== src/Storage/Patterns.antt =====
-- Where a pattern does not occur, where a text is split, and what is left of it.
use lithops.Base.{
  ℕ, ◌≡◌, refl, ap, Bool, true, false, ◌||◌, [], ◌∷◌, ◌++◌, Text, starts_with, Lacks, ◌==◌, arith,
}
use lithops.Storage.JobStatus.{contains, split, add_front, remove_from, init_key_suffix}

-- A pattern that begins with a dot is not in a text without one.
pub contains_dot :
    (p s t : Text) → Lacks b'.' s → contains (b'.' ∷ p) (s ++ t) ≡ contains (b'.' ∷ p) t
contains_dot p [] t h = refl
contains_dot p (x ∷ s) t h = ground (arith, contains_dot p s t h.1)

unfoldable pub has_dot : Text → Bool
has_dot [] = false
has_dot (q ∷ p) = q == b'.' || has_dot p

starts_with-outside :
    (c : ℕ) (p s t : Text)
    → Lacks c p
    → has_dot p ≡ true
    → Lacks b'.' s
    → starts_with p (s ++ c ∷ t) ≡ false
unfolding has_dot
starts_with-outside c [] s t h dot k = cc
starts_with-outside c (q ∷ p) [] t h dot k = ground arith
starts_with-outside c (q ∷ p) (x ∷ s) t h dot k = ground (arith, starts_with-outside c p s t h.1)

pub contains-outside :
    (c : ℕ) (p s t : Text)
    → Lacks c p
    → has_dot p ≡ true
    → Lacks b'.' s
    → contains p (s ++ c ∷ t) ≡ contains p t
contains-outside c p [] t h dot k = rw (starts_with-outside c p [] t h dot k) refl
contains-outside c p (x ∷ s) t h dot k =
    rw (starts_with-outside c p (x ∷ s) t h dot k) (contains-outside c p s t h dot k.1)

-- The dots of the pattern and the text would have to meet.
starts_with-dots :
    (p q s t : Text)
    → Lacks b'.' p
    → Lacks b'.' s
    → starts_with q t ≡ false
    → starts_with (p ++ b'.' ∷ q) (s ++ b'.' ∷ t) ≡ false
starts_with-dots [] q [] t h k e = ground arith
starts_with-dots [] q (x ∷ s) t h k e = ground arith
starts_with-dots (y ∷ p) q [] t h k e = ground arith
starts_with-dots (y ∷ p) q (x ∷ s) t h k e = ground (arith, starts_with-dots p q s t h.1 k.1 e)

pub contains-dots :
    (p q s t : Text)
    → Lacks b'.' p
    → Lacks b'.' s
    → starts_with q t ≡ false
    → contains (p ++ b'.' ∷ q) (s ++ b'.' ∷ t) ≡ contains (p ++ b'.' ∷ q) t
contains-dots p q [] t h k e = rw (starts_with-dots p q [] t h k e) refl
contains-dots p q (x ∷ s) t h k e =
    rw (starts_with-dots p q (x ∷ s) t h k e) (contains-dots p q s t h k.1 e)

pub split-append : (c : ℕ) (s t : Text) → Lacks c s → split c (s ++ c ∷ t) ≡ s ∷ split c t
split-append c [] t h = ground arith
split-append c (x ∷ s) t h = rw h.0 (ap (add_front x) (split-append c s t h.1))

pub split-Lacks : (c : ℕ) (s : Text) → Lacks c s → split c s ≡ s ∷ []
split-Lacks c [] h = refl
split-Lacks c (x ∷ s) h = rw h.0 (ap (add_front x) (split-Lacks c s h.1))

pub remove_from-append :
    (s : Text) → Lacks b'.' s → remove_from init_key_suffix 0 (s ++ init_key_suffix) ≡ s
remove_from-append [] h = refl
remove_from-append (x ∷ s) h = ground (arith, remove_from-append s h.1)

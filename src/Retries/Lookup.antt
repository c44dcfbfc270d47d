-- ===== src/Retries/Lookup.antt =====
-- What the dictionary of `wait` knows.
use lithops.Base.{
  ℕ, zero, suc, ◌+◌, ◌<◌, ◌≤◌, ◌≡◌, refl, true, inl, inr, Bool-cases, some, List, [], ◌∷◌, ◌++◌,
  map, length, get_elem?, set, ◌==◌, arith,
}
use lithops.Retries.Wait.{RetryingFuture, find, lookup_of}

-- The dictionary knows a future, and gives places of the list.
abbrev pub Known : List (ℕ × ℕ) → ℕ → ℕ → Type 0
Known lookup n rf = (i : ℕ) × (find rf lookup ≡ some i) × (i < n)

abbrev pub AllKnown : List (ℕ × ℕ) → ℕ → List ℕ → Type 0
AllKnown lookup n [] = Unit
AllKnown lookup n (rf ∷ rfs) = Known lookup n rf × AllKnown lookup n rfs

Known-cons :
    (lookup : List (ℕ × ℕ)) (n r i rf : ℕ)
    → i < n
    → Known lookup n rf
    → Known ((r, i) ∷ lookup) n rf
Known-cons lookup n r i rf lt (j, there, below) = elim (Bool-cases (r == rf)) [
  | inl e ↦ (i, rw e refl, lt)
  | inr e ↦ (j, rw e there, below)
]

pub Known-here : (lookup : List (ℕ × ℕ)) (n r i : ℕ) → i < n → Known ((r, i) ∷ lookup) n r
Known-here lookup n r i lt = let same : (r == r) ≡ true = ground arith in (i, rw same refl, lt)

pub AllKnown-cons :
    (lookup : List (ℕ × ℕ)) (n r i : ℕ) (rfs : List ℕ)
    → i < n
    → AllKnown lookup n rfs
    → AllKnown ((r, i) ∷ lookup) n rfs
AllKnown-cons lookup n r i [] lt all = tt
AllKnown-cons lookup n r i (rf ∷ rfs) lt (known, all) =
    (Known-cons lookup n r i rf lt known, AllKnown-cons lookup n r i rfs lt all)

abbrev pub responses : List RetryingFuture → List ℕ
responses fs = map (λ f. f.response_future) fs

pub AllKnown-set :
    (lookup : List (ℕ × ℕ)) (n : ℕ) (xs : List RetryingFuture) (i : ℕ) (f : RetryingFuture)
    → Known lookup n f.response_future
    → AllKnown lookup n (responses xs)
    → AllKnown lookup n (responses (set xs i f))
AllKnown-set lookup n [] i f known all = tt
AllKnown-set lookup n (x ∷ xs) zero f known (first, all) = (known, all)
AllKnown-set lookup n (x ∷ xs) (suc i) f known (first, all) =
    (first, AllKnown-set lookup n xs i f known all)

pub AllKnown-get :
    (lookup : List (ℕ × ℕ)) (n : ℕ) (xs : List RetryingFuture) (i : ℕ)
    → i < length xs
    → AllKnown lookup n (responses xs)
    → (f : RetryingFuture) × (get_elem? xs i ≡ some f) × Known lookup n f.response_future
AllKnown-get lookup n [] i lt all = absurd (omega arith)
AllKnown-get lookup n (x ∷ xs) zero lt (first, all) = (x, refl, first)
AllKnown-get lookup n (x ∷ xs) (suc i) lt (first, all) =
    AllKnown-get lookup n xs i (omega arith) all

-- The places of a dictionary.
abbrev pub AllPlaces : ℕ → List (ℕ × ℕ) → Type 0
AllPlaces n [] = Unit
AllPlaces n ((r, i) ∷ lookup) = (i < n) × AllPlaces n lookup

AllPlaces-append :
    (n : ℕ) (xs ys : List (ℕ × ℕ)) → AllPlaces n xs → AllPlaces n ys → AllPlaces n (xs ++ ys)
AllPlaces-append n [] ys all more = more
AllPlaces-append n ((r, i) ∷ xs) ys (lt, all) more = (lt, AllPlaces-append n xs ys all more)

AllPlaces-lookup_of :
    (n i : ℕ) (fs : List RetryingFuture) → i + length fs ≤ n → AllPlaces n (lookup_of i fs)
AllPlaces-lookup_of n i [] le = tt
AllPlaces-lookup_of n i (f ∷ fs) le =
    AllPlaces-append n (lookup_of (suc i) fs) ((f.response_future, i) ∷ [])
      (AllPlaces-lookup_of n (suc i) fs (omega arith)) (omega arith, tt)

Known-last :
    (n r i : ℕ) (lookup : List (ℕ × ℕ))
    → AllPlaces n lookup
    → i < n
    → Known (lookup ++ (r, i) ∷ []) n r
Known-last n r i [] all lt = Known-here [] n r i lt
Known-last n r i ((r', j) ∷ lookup) (below, all) lt =
    Known-cons (lookup ++ (r, i) ∷ []) n r' j r below (Known-last n r i lookup all lt)

find-append : (rf j : ℕ) (xs ys : List (ℕ × ℕ)) → find rf xs ≡ some j → find rf (xs ++ ys) ≡ some j
find-append rf j [] ys e = cc
find-append rf j ((r, i) ∷ xs) ys e = ground (arith, find-append rf j xs ys)

pub AllKnown-append :
    (n : ℕ) (xs ys : List (ℕ × ℕ)) (rfs : List ℕ) → AllKnown xs n rfs → AllKnown (xs ++ ys) n rfs
AllKnown-append n xs ys [] all = tt
AllKnown-append n xs ys (rf ∷ rfs) ((j, there, lt), all) =
    ((j, find-append rf j xs ys there, lt), AllKnown-append n xs ys rfs all)

pub AllKnown-lookup_of :
    (n i : ℕ) (fs : List RetryingFuture)
    → i + length fs ≤ n
    → AllKnown (lookup_of i fs) n (responses fs)
AllKnown-lookup_of n i [] le = tt
AllKnown-lookup_of n i (f ∷ fs) le = (
  Known-last n f.response_future i (lookup_of (suc i) fs)
      (AllPlaces-lookup_of n (suc i) fs (omega arith)) (omega arith),
  AllKnown-append n (lookup_of (suc i) fs) ((f.response_future, i) ∷ []) (responses fs)
      (AllKnown-lookup_of n (suc i) fs (omega arith)),
)

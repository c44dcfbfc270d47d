-- ===== src/Storage/Buckets.antt =====
-- What is left in a bucket whose folders are cleaned.
use lithops.Base.{
  ℕ, suc, ◌≡◌, refl, ap, sym, ◌∙◌, Bool, true, false, not, ◌||◌, some, List, [], ◌∷◌, keep, Text,
  text_eq, text_eq_refl, text_eq→eq, starts_with, ◌⊎◌, inl, inr, arith,
}
use lithops.Storage.Cleaner.{Bucket, folder, clean_bucket, clean_folders}

abbrev pub among : Text → List Text → Bool
among k [] = false
among k (k' ∷ keys) = text_eq k k' || among k keys

-- A storage lists the keys that begin with the prefix, and what is deleted is not listed again.
pub record IsBucket {S : Type 0} (bucket : Bucket S) : Type 0 where
  pub lists :
      (prefix : Text) (s : S)
      → bucket.list_keys prefix s ≡ keep (starts_with prefix) (bucket.list_keys [] s)
  pub deletes :
      (keys : List Text) (s : S)
      → bucket.list_keys [] (bucket.delete_objects keys s)
        ≡ keep (λ k. not (among k keys)) (bucket.list_keys [] s)

-- The keys in none of these folders.
abbrev pub in_folders : Text → List Text → Text → Bool
in_folders prefix [] k = false
in_folders prefix (n ∷ names) k = starts_with (folder prefix n) k || in_folders prefix names k

text_eq-test : (p : Text → Bool) (s t : Text) → text_eq s t ≡ true → p t ≡ p s
text_eq-test p s t h = ap p (sym (text_eq→eq s t h))

-- What is among the kept passes the test, and what is among all and passes it is among them.
among-keep :
    (p : Text → Bool) (keys : List Text) (k : Text) → among k (keep p keys) ≡ true → p k ≡ true
among-keep p [] k h = cc
among-keep p (k' ∷ keys) k h =
    let same = text_eq-test p k k' in ground (arith, same, among-keep p keys k)

keep-among :
    (p : Text → Bool) (keys : List Text) (k : Text)
    → among k keys ≡ true
    → p k ≡ true
    → among k (keep p keys) ≡ true
keep-among p [] k h passes = cc
keep-among p (k' ∷ keys) k h passes =
    let same = text_eq-test p k k' in ground (arith, same, keep-among p keys k)

keep_ext :
    (f g : Text → Bool) (keys : List Text)
    → ((k : Text) → among k keys ≡ true → f k ≡ g k)
    → keep f keys ≡ keep g keys
keep_ext f g [] h = refl
keep_ext f g (k ∷ keys) h =
    let here : f k ≡ g k = h k (rw (text_eq_refl k) refl) in
    let rest = keep_ext f g keys (λ k' there. h k' (ground (arith, there))) in
    ground (arith, here, rest)

-- Where all that pass a test are deleted, the others stay.
keep_others :
    (p : Text → Bool) (keys : List Text)
    → keep (λ k. not (among k (keep p keys))) keys ≡ keep (λ k. not (p k)) keys
keep_others p keys =
    keep_ext (λ k. not (among k (keep p keys))) (λ k. not (p k)) keys
      (λ k there.
        let low = among-keep p keys k in
        let high = keep-among p keys k there in ground (arith, low, high))

pub keep_twice :
    (p q : Text → Bool) (keys : List Text)
    → keep (λ k. not (q k)) (keep (λ k. not (p k)) keys) ≡ keep (λ k. not (p k || q k)) keys
keep_twice p q [] = refl
keep_twice p q (k ∷ keys) = ground (arith, keep_twice p q keys)

keep_none : (p : Text → Bool) (keys : List Text) → keep p (keep (λ k. not (p k)) keys) ≡ []
keep_none p [] = refl
keep_none p (k ∷ keys) = ground (arith, keep_none p keys)

keep_rest :
    (p : Text → Bool) (keys : List Text) → keep p keys ≡ [] → keys ≡ keep (λ k. not (p k)) keys
keep_rest p [] h = refl
keep_rest p (k ∷ keys) h = ground (arith, keep_rest p keys)

keep_all : (keys : List Text) → keep (λ k. true) keys ≡ keys
keep_all [] = refl
keep_all (k ∷ keys) = ap (λ l. k ∷ l) (keep_all keys)

List-cases : (l : List Text) → (l ≡ []) ⊎ ((k : Text) × (keys : List Text) × (l ≡ k ∷ keys))
List-cases [] = inl refl
List-cases (k ∷ keys) = inr (k, keys, refl)

module _ {S : Type 0} (bucket : Bucket S) (is : IsBucket bucket) where
  abbrev all : S → List Text
  all s = bucket.list_keys [] s

  -- After one round nothing is left that begins with the prefix.
  clean_bucket-left :
      (fuel : ℕ) (prefix : Text) (s : S)
      → (s' : S) × (clean_bucket bucket (suc (suc fuel)) prefix s ≡ some s')
        × (all s' ≡ keep (λ k. not (starts_with prefix k)) (all s))
  unfolding clean_bucket
  clean_bucket-left fuel prefix s =
      let p = starts_with prefix in
      let listed = is.lists prefix s in
      elim (List-cases (bucket.list_keys prefix s)) [
        | inl nothing ↦
            (s, rw (clean_bucket, nothing) refl, keep_rest p (all s) (sym listed ∙ nothing))
        | inr (k, keys, there) ↦
            let s' = bucket.delete_objects (k ∷ keys) s in
            let gone : all s' ≡ keep (λ k. not (p k)) (all s) =
              is.deletes (k ∷ keys) s
              ∙ ap (λ ks. keep (λ k'. not (among k' ks)) (all s)) (sym there ∙ listed)
              ∙ keep_others p (all s) in
            let nothing : bucket.list_keys prefix s' ≡ [] =
              is.lists prefix s' ∙ ap (keep p) gone ∙ keep_none p (all s) in
            (s', rw (clean_bucket, there, nothing) refl, gone)
      ]

  pub clean_folders-left :
      (fuel : ℕ) (prefix : Text) (names : List Text) (s : S)
      → (s' : S) × (clean_folders bucket (suc (suc fuel)) prefix names s ≡ some s')
        × (all s' ≡ keep (λ k. not (in_folders prefix names k)) (all s))
  unfolding clean_folders
  clean_folders-left fuel prefix [] s = (s, refl, sym (keep_all (all s)))
  clean_folders-left fuel prefix (n ∷ names) s =
      let (s1, first, left1) = clean_bucket-left fuel (folder prefix n) s in
      let (s2, second, left2) = clean_folders-left fuel prefix names s1 in
      (
        s2,
        rw (clean_folders, first) second,
        left2
            ∙ ap (keep (λ k. not (in_folders prefix names k))) left1
            ∙ keep_twice (starts_with (folder prefix n)) (in_folders prefix names) (all s),
      )

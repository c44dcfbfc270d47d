-- ===== src/Storage/Deletions.antt =====
-- What `delete_cloudobjects` deletes.
use lithops.Base.{
  ℕ, ◌≡◌, refl, ap, sym, ◌∙◌, Bool, true, false, ◌||◌, Option, none, some, List, [], ◌∷◌, ◌++◌, map,
  keep, append_assoc, append-nil, ◌==◌, if◌then◌else◌, Bool-cases, inl, inr, arith,
}
use lithops.Storage.CloudObjects.{
  CloudObject, add_key, keys_in, add_object, collect, called, delete_buckets, delete_backends,
  last_object, delete_cloudobjects,
}

-- The keys that lie in a bucket, and the buckets, each where it first occurs.
abbrev pub keys_of : ℕ → List CloudObject → List ℕ
keys_of bucket cos = map (λ co. co.key) (keep (λ co. bucket == co.bucket) cos)

abbrev pub has : ℕ → List ℕ → Bool
has b [] = false
has b (c ∷ cs) = b == c || has b cs

abbrev pub insert : ℕ → List ℕ → List ℕ
insert b cs = if has b cs then cs else cs ++ b ∷ []

abbrev pub buckets_from : List ℕ → List CloudObject → List ℕ
buckets_from seen [] = seen
buckets_from seen (co ∷ cos) = buckets_from (insert co.bucket seen) cos

abbrev pub AllIn : ℕ → List CloudObject → Type 0
AllIn backend [] = Unit
AllIn backend (co ∷ cos) = ((co.backend == backend) ≡ true) × AllIn backend cos

abbrev names : List (ℕ × List ℕ) → List ℕ
names d = map (λ e. e.0) d

abbrev keys : Option (List ℕ) → List ℕ
keys none = []
keys (some ks) = ks

abbrev add_all : List CloudObject → List (ℕ × List ℕ) → List (ℕ × List ℕ)
add_all [] d = d
add_all (co ∷ cos) d = add_all cos (add_key co.bucket co.key d)

names-add_key : (b k : ℕ) (d : List (ℕ × List ℕ)) → names (add_key b k d) ≡ insert b (names d)
names-add_key b k [] = refl
names-add_key b k ((c, ks) ∷ d) = ground (arith, names-add_key b k d)

names-add_all :
    (cos : List CloudObject) (d : List (ℕ × List ℕ))
    → names (add_all cos d) ≡ buckets_from (names d) cos
names-add_all [] d = refl
names-add_all (co ∷ cos) d =
    names-add_all cos (add_key co.bucket co.key d)
    ∙ ap (λ l. buckets_from l cos) (names-add_key co.bucket co.key d)

keys-add_key :
    (b c k : ℕ) (d : List (ℕ × List ℕ))
    → keys (keys_in b (add_key c k d))
      ≡ (if b == c then keys (keys_in b d) ++ k ∷ [] else keys (keys_in b d))
keys-add_key b c k [] = ground arith
keys-add_key b c k ((c', ks) ∷ d) = ground (arith, keys-add_key b c k d)

keys-add_all :
    (b : ℕ) (cos : List CloudObject) (d : List (ℕ × List ℕ))
    → keys (keys_in b (add_all cos d)) ≡ keys (keys_in b d) ++ keys_of b cos
keys-add_all b [] d = sym (append-nil (keys (keys_in b d)))
keys-add_all b (co ∷ cos) d =
    let rest = keys-add_all b cos (add_key co.bucket co.key d) in
    let here = keys-add_key b co.bucket co.key d in
    let shift = append_assoc (keys (keys_in b d)) (co.key ∷ []) (keys_of b cos) in
    elim (Bool-cases (b == co.bucket)) [
      | inl same ↦ ground (arith, rest, here, shift)
      | inr other ↦ ground (arith, rest, here)
    ]

has-append : (b c : ℕ) (cs : List ℕ) → has b (cs ++ c ∷ []) ≡ has b cs || b == c
has-append b c [] = ground arith
has-append b c (d ∷ cs) = ground (arith, has-append b c cs)

has-insert : (b : ℕ) (cs : List ℕ) → has b (insert b cs) ≡ true
has-insert b cs = ground (arith, has-append b b cs)

has_old-insert : (b c : ℕ) (cs : List ℕ) → has b cs ≡ true → has b (insert c cs) ≡ true
has_old-insert b c cs h = ground (arith, has-append b c cs)

has-buckets_from :
    (b : ℕ) (seen : List ℕ) (cos : List CloudObject)
    → has b seen ≡ true
    → has b (buckets_from seen cos) ≡ true
has-buckets_from b seen [] h = h
has-buckets_from b seen (co ∷ cos) h =
    has-buckets_from b (insert co.bucket seen) cos (has_old-insert b co.bucket seen h)

has_last-buckets_from :
    (seen : List ℕ) (co : CloudObject) (cos : List CloudObject)
    → has (last_object co cos).bucket (buckets_from seen (co ∷ cos)) ≡ true
has_last-buckets_from seen co [] = has-insert co.bucket seen
has_last-buckets_from seen co (co' ∷ cos) = has_last-buckets_from (insert co.bucket seen) co' cos

keys_in-has :
    (b : ℕ) (d : List (ℕ × List ℕ))
    → has b (names d) ≡ true
    → keys_in b d ≡ some (keys (keys_in b d))
keys_in-has b [] h = cc
keys_in-has b ((c, ks) ∷ d) h = ground (arith, keys_in-has b d)

collect-add_all :
    (backend : ℕ) (cos : List CloudObject) (d : List (ℕ × List ℕ))
    → AllIn backend cos
    → collect cos ((backend, d) ∷ []) ≡ (backend, add_all cos d) ∷ []
unfolding collect
collect-add_all backend [] d h = refl
collect-add_all backend (co ∷ cos) d h =
    rw h.0 (collect-add_all backend cos (add_key co.bucket co.key d) h.1)

delete_buckets_lem :
    (co : CloudObject) (all buckets : List (ℕ × List ℕ)) (ks : List ℕ)
    → keys_in co.bucket all ≡ some ks
    → delete_buckets co all buckets (record { calls = []; failure = none })
      ≡ record { calls = map (λ b. (b, ks)) (names buckets); failure = none }
delete_buckets_lem co all [] ks there = refl
delete_buckets_lem co all ((b, _) ∷ buckets) ks there =
    rw (delete_buckets, there) (ap (called (b, ks)) (delete_buckets_lem co all buckets ks there))

eq_of : (a b : ℕ) → (a == b) ≡ true → a ≡ b
eq_of a b h = ground arith

same : (a : ℕ) → (a == a) ≡ true
same a = ground arith

-- If all objects are in the storage's backend, each of their buckets, in the order in which they
-- come, is asked once to delete the keys that lie in the bucket of the last object.
pub delete_cloudobjects-calls :
    (backend : ℕ) (co : CloudObject) (cos : List CloudObject)
    → AllIn backend (co ∷ cos)
    → delete_cloudobjects backend (co ∷ cos) ≡ record {
      calls =
          map
            (λ b. (b, keys_of (last_object co cos).bucket (co ∷ cos)))
            (buckets_from [] (co ∷ cos));
      failure = none;
    }
unfolding delete_cloudobjects delete_backends
delete_cloudobjects-calls backend co cos h =
    let last = last_object co cos in
    let buckets = add_all (co ∷ cos) [] in
    let in_order = names-add_all (co ∷ cos) [] in
    let there : has last.bucket (names buckets) ≡ true =
      ap (has last.bucket) in_order ∙ has_last-buckets_from [] co cos in
    let found = keys_in-has last.bucket buckets there in
    let its_keys = keys-add_all last.bucket (co ∷ cos) [] in
    let one_backend : collect cos (add_object co []) ≡ (backend, buckets) ∷ [] =
      ap (λ b. collect cos ((b, add_key co.bucket co.key []) ∷ [])) (eq_of co.backend backend h.0)
      ∙ collect-add_all backend cos (add_key co.bucket co.key []) h.1 in
    rw (one_backend, same backend)
      (delete_buckets_lem last buckets buckets (keys_of last.bucket (co ∷ cos))
          (found ∙ ap some its_keys)
        ∙ ap
            (λ l. record {
              calls = map (λ b. (b, keys_of last.bucket (co ∷ cos))) l;
              failure = none;
            })
            in_order)

-- ===== src/Partition/Counts.antt =====
-- The numbers of partitions that come with the partitions of an object store's objects.
use lithops.Base.{
  ℕ, ◌≡◌, refl, ap, subst, List, [], ◌∷◌, Text, length, length-append, length-map, sum, sum-append,
  arith, ends_with, text_eq, ◌==◌, if◌then◌else◌, Bool-cases, inl, inr,
}
use lithops.Partition.Objects.{
  Result, ok, err, ◌>>=◌, object, Partition, to_partition, to_partitions, split_object_url,
}
use lithops.Partition.Local.{Chunking}
use lithops.Partition.Bucket.{
  Input, ObjectStore, Stores, resolve_all, has_other, find_objects, bucket_chunks, split_listed,
  split_elements, split_from_storage, split_resolved,
}

ok-injective : {A : Type 0} {a b : A} → ok a ≡ ok b → a ≡ b
ok-injective {a = a} e = ap (λ r. elim r [ ok x ↦ x | err x ↦ a ]) e

-- A chain that ends well has passed each of its links.
ok-bind :
    {A B : Type 0} (r : Result A) (f : A → Result B) {b : B}
    → r >>= f ≡ ok b
    → (a : A) × (r ≡ ok a) × (f a ≡ ok b)
ok-bind (ok a) f e = (a, refl, e)
ok-bind (err x) f e = absurd (cc)

module _ {P : Type 0} (opts : Chunking) where
  -- As many partitions as the numbers add up to.
  abbrev Summed : List (Partition P) × List ℕ → Type 0
  Summed r = length r.0 ≡ sum r.1

  abbrev SummedTotal : List (Partition P) × List ℕ × ℕ → Type 0
  SummedTotal r = length r.0 ≡ sum r.1

  split_listed-Summed :
      (sb bucket : Text) (params : P) (objects : List (Text × ℕ)) {r : List (Partition P) × List ℕ}
      → split_listed opts sb bucket params objects ≡ ok r
      → Summed r
  unfolding split_listed
  split_listed-Summed sb bucket params [] e = subst Summed (ok-injective e) refl
  split_listed-Summed sb bucket params ((key, size) ∷ objects) {r} e =
      elim (Bool-cases (ends_with b'/' key)) [
        | inl folder ↦ split_listed-Summed sb bucket params objects (rw folder at e)
        | inr file ↦
            let (chunks, f, g) = ok-bind (bucket_chunks opts size) _ (rw file at e) in
            let (found, h, i) = ok-bind (split_listed opts sb bucket params objects) _ g in
            let rest = split_listed-Summed sb bucket params objects h in
            let obj = object sb bucket key in
            let mine = to_partitions obj opts.obj_newline params chunks in
            let cut =
              length-map (to_partition obj opts.obj_newline params (length chunks)) chunks in
            subst Summed (ok-injective i) (omega (arith, length-append mine found.0))
      ]

  split_elements-Summed :
      (store : ObjectStore) (elems : List (Text × Text × P)) {r : List (Partition P) × List ℕ × ℕ}
      → split_elements opts store elems ≡ ok r
      → SummedTotal r
  unfolding split_elements
  split_elements-Summed store [] e = subst SummedTotal (ok-injective e) refl
  split_elements-Summed store ((sb, url, params) ∷ elems) e =
      let (u, _, e1) = ok-bind (split_object_url url) _ e in
      let (objects, _, e2) = ok-bind (find_objects store u) _ e1 in
      let (here, f, e3) = ok-bind (split_listed opts _ u.bucket params objects) _ e2 in
      let (there, g, e4) = ok-bind (split_elements opts store elems) _ e3 in
      let mine = split_listed-Summed _ u.bucket params objects f in
      let rest = split_elements-Summed store elems g in
      subst SummedTotal (ok-injective e4)
        (omega (arith, length-append here.0 there.0, sum-append here.1 there.1))

  split_resolved-Summed :
      (stores : Stores) (resolved : List (Text × Text × P)) {r : List (Partition P) × List ℕ}
      → split_resolved opts stores resolved ≡ ok r
      → Summed r
  unfolding split_resolved
  split_resolved-Summed stores [] e = absurd (cc)
  split_resolved-Summed stores ((sb, url, params) ∷ others) e =
      elim (Bool-cases (has_other sb others)) [
        | inl two ↦ let e1 = rw two at e in absurd (cc)
        | inr one ↦
            let store = if text_eq sb stores.backend then stores.internal else stores.create sb in
            let (found, f, e1) =
              ok-bind (split_elements opts store ((sb, url, params) ∷ others)) _ (rw one at e) in
            let sums = split_elements-Summed store ((sb, url, params) ∷ others) f in
            elim (Bool-cases (found.2 == 0)) [
              | inl empty ↦ let e2 = rw empty at e1 in absurd (cc)
              | inr some_found ↦ subst Summed (ok-injective (rw some_found at e1)) sums
            ]
      ]

  -- Where objects of an object store are cut, there are as many partitions as the numbers of the
  -- partitions per object add up to.
  pub split_from_storage-sums :
      (stores : Stores) (elems : List (Input P)) {r : List (Partition P) × List ℕ}
      → split_from_storage opts stores elems ≡ ok r
      → length r.0 ≡ sum r.1
  unfolding split_from_storage
  split_from_storage-sums stores elems e =
      let (resolved, _, e1) = ok-bind (resolve_all stores.backend elems) _ e in
      split_resolved-Summed stores resolved e1

-- ===== src/Partition/Urls.antt =====
-- `split_object_url` takes a url apart into what it was put together from.
use lithops.Base.{
  ℕ, ◌≡◌, false, some, [], ◌∷◌, ◌++◌, Text, codes, ends_with, Lacks, cut-append, rcut-append,
  cut_scheme-append, cut_scheme-none, arith,
}
use lithops.Partition.Objects.{ok, split_object_url, backend_alias}

ends_with-Lacks : (c x : ℕ) (s t : Text) → Lacks c (x ∷ s) → ends_with c (t ++ c ∷ x ∷ s) ≡ false
ends_with-Lacks c x s (y ∷ z ∷ t) h = ends_with-Lacks c x s (z ∷ t) h
ends_with-Lacks c x s (y ∷ []) h = ends_with-Lacks c x s [] h
ends_with-Lacks c x [] [] h = h.0
ends_with-Lacks c x (y ∷ s) [] h = ends_with-Lacks c y s [] h.1

-- The url of a named object, its backend without `:`, its bucket and name without `/`, and no `:`
-- in its path, is taken apart into the backend under its full name, the bucket, the prefix and name.
pub split_object_url-join :
    (sb bucket prefix : Text) (c : ℕ) (name : Text)
    → Lacks b':' sb
    → Lacks b'/' bucket
    → Lacks b'/' (c ∷ name)
    → Lacks b':' (bucket ++ b'/' ∷ (prefix ++ b'/' ∷ c ∷ name))
    → split_object_url (sb ++ (codes "://" ++ (bucket ++ b'/' ∷ (prefix ++ b'/' ∷ c ∷ name))))
      ≡ ok (record {
        sb = some (backend_alias sb);
        bucket = bucket;
        prefix = prefix;
        obj_name = c ∷ name;
      })
unfolding split_object_url
split_object_url-join sb bucket prefix c name hs hb hn hp =
    let path = bucket ++ b'/' ∷ (prefix ++ b'/' ∷ c ∷ name) in
    ground (
      arith,
      cut_scheme-append sb path hs,
      cut_scheme-none path hp,
      cut-append b'/' bucket (prefix ++ b'/' ∷ c ∷ name) hb,
      rcut-append b'/' prefix (c ∷ name) hn,
      ends_with-Lacks b'/' c name prefix hn,
    )

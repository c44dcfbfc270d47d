-- ===== src/Partition/Bucket.antt =====
-- `_split_objects_from_object_storage`: one backend, its objects listed or looked up, and each cut.
use lithops.Base.{
  ℕ, ◌+◌, Bool, true, false, Option, none, some, List, [], ◌∷◌, ◌++◌, Text, codes, text_eq,
  ends_with, cut, length, ◌==◌, if◌then◌else◌, ◌||◌, ◌&&◌, not,
}
use lithops.Partition.Split.{Chunk, size_for_number, split_object}
use lithops.Partition.Objects.{
  Result, ok, err, ◌>>=◌, type_error, key_error, zero_division_error, multiple_backends, no_objects,
  out_of_fuel, object, ObjectUrl, split_object_url, Partition, to_partitions, given,
}
use lithops.Partition.Local.{Chunking, path_join}

-- `elem['obj']`: a text, or a CloudObject of an object store.
pub data Ref : Type 0 where
  text : Text → Ref
  cloud : (backend bucket key : Text) → Ref

pub record Input (P : Type 0) : Type 0 where
  pub obj : Ref
  pub params : P

-- The calls of a Storage instance. A listing is of keys with sizes; the lookup gives a size.
pub record ObjectStore : Type 0 where
  pub list_objects : (bucket : Text) (prefix pattern : Option Text) → Result (List (Text × ℕ))
  pub head_object : (bucket key : Text) → Result ℕ

pub record Stores : Type 0 where
  pub backend : Text
  pub internal : ObjectStore
  pub create : Text → ObjectStore

abbrev pub has_star : Text → Bool
has_star t = elim (cut b'*' t) [ none ↦ false | some _ ↦ true ]

abbrev pub upto_star : Text → Text
upto_star t = elim (cut b'*' t) [ none ↦ t | some (a, b) ↦ a ]

abbrev pub with_slash : Text → Text
with_slash [] = []
with_slash (c ∷ t) = (c ∷ t) ++ b'/' ∷ []

-- The backends whose listing understands a pattern.
abbrev pub globs : Option Text → Bool
globs none = false
globs (some sb) = text_eq sb (codes "aws_s3") || text_eq sb (codes "ibm_cos")

abbrev pub ref_url : Ref → Text
ref_url (text t) = t
ref_url (cloud backend bucket key) = backend ++ codes "://" ++ bucket ++ b'/' ∷ key

-- The backend of an element and its url, which from here on names its backend.
unfoldable pub resolve : Text → Ref → Result (Text × Text)
unfolding split_object_url
resolve default ref = split_object_url (ref_url ref) >>= λ u. elim u.sb [
  | none ↦ ok (default, default ++ codes "://" ++ ref_url ref)
  | some sb ↦ ok (sb, ref_url ref)
]

unfoldable pub resolve_all : {P : Type 0} → Text → List (Input P) → Result (List (Text × Text × P))
unfolding resolve
resolve_all default [] = ok []
resolve_all default (elem ∷ elems) = resolve default elem.obj >>= λ (sb, url).
    resolve_all default elems >>= λ rest. ok ((sb, url, elem.params) ∷ rest)

-- `len(sbs) > 1`: a backend that is not the first one's.
abbrev pub has_other : {P : Type 0} → Text → List (Text × Text × P) → Bool
has_other sb [] = false
has_other sb ((sb', url, params) ∷ rest) = not (text_eq sb' sb) || has_other sb rest

-- The prefix and the pattern to list by, or no pattern. In the branch with a star in the name alone
-- `'/'.join` is called with two arguments.
abbrev name_pattern : ObjectUrl → Result (Text × Option Text)
name_pattern u =
    if globs u.sb && (has_star u.prefix || has_star u.obj_name)
    then (if has_star u.prefix
        then ok (upto_star u.prefix, some (path_join u.prefix u.obj_name))
        else err type_error)
    else ok (u.prefix, none)

abbrev prefix_pattern : ObjectUrl → Text × Option Text
prefix_pattern u =
    if globs u.sb && has_star u.prefix
    then (upto_star u.prefix, some u.prefix)
    else (u.prefix, none)

abbrev list_named : ObjectStore → ObjectUrl → Result (List (Text × ℕ))
list_named store u = name_pattern u >>= λ (prefix, pattern). elim pattern [
  | some stars ↦ store.list_objects u.bucket (some (with_slash prefix)) (some stars)
  | none ↦
      let key = path_join (with_slash prefix) u.obj_name in
      store.head_object u.bucket key >>= λ size. ok ((key, size) ∷ [])
]

-- `objects` for one element of the input: looked up by name, or listed by prefix or by bucket.
unfoldable pub find_objects : ObjectStore → ObjectUrl → Result (List (Text × ℕ))
find_objects store u = elim u.obj_name [
  | c ∷ name ↦ list_named store u
  | [] ↦ elim u.prefix [
    | c ∷ prefix ↦
        let (prefix, pattern) = prefix_pattern u in
        store.list_objects u.bucket (some (with_slash prefix)) pattern
    | [] ↦ store.list_objects u.bucket none none
  ]
]

-- A chunk size of 0 makes the count of the parts divide by zero.
unfoldable pub bucket_chunks : Chunking → ℕ → Result (List Chunk)
unfolding size_for_number split_object
bucket_chunks opts obj_size =
    let obj_chunk_size =
      if not (opts.obj_chunk_number == 0)
      then size_for_number obj_size opts.obj_chunk_number
      else if not (opts.obj_chunk_size == 0)
      then opts.obj_chunk_size
      else obj_size in
    if obj_chunk_size == 0
    then err zero_division_error
    else elim (split_object obj_size (given opts.obj_newline) obj_chunk_size) [
      | none ↦ err out_of_fuel
      | some chunks ↦ ok chunks
    ]

-- `_split` for each object found. A key that ends in a slash is skipped, and leaves no count.
module _ {P : Type 0} (opts : Chunking) where
  unfoldable pub split_listed :
      (sb bucket : Text) → P → List (Text × ℕ) → Result (List (Partition P) × List ℕ)
  unfolding bucket_chunks
  split_listed sb bucket params [] = ok ([], [])
  split_listed sb bucket params ((key, size) ∷ objects) =
      let rest = split_listed sb bucket params objects in
      if ends_with b'/' key
      then rest
      else bucket_chunks opts size >>= λ chunks. rest >>= λ (partitions, parts). ok (
        to_partitions (object sb bucket key) opts.obj_newline params chunks ++ partitions,
        length chunks ∷ parts,
      )

  -- The second loop: partitions, their numbers, and how many objects there were.
  unfoldable pub split_elements :
      ObjectStore → List (Text × Text × P) → Result (List (Partition P) × List ℕ × ℕ)
  unfolding split_object_url find_objects split_listed
  split_elements store [] = ok ([], [], 0)
  split_elements store ((sb, url, params) ∷ elems) = split_object_url url >>= λ u.
      find_objects store u >>= λ objects.
      split_listed (elim u.sb [ none ↦ sb | some sb' ↦ sb' ]) u.bucket params objects
      >>= λ (partitions, parts). split_elements store elems >>= λ (partitions', parts', total).
          ok (partitions ++ partitions', parts ++ parts', length objects + total)

  unfoldable pub split_resolved :
      Stores → List (Text × Text × P) → Result (List (Partition P) × List ℕ)
  unfolding split_elements
  split_resolved stores [] = err key_error
  split_resolved stores ((sb, url, params) ∷ others) =
      if has_other sb others
      then err multiple_backends
      else (let store = if text_eq sb stores.backend then stores.internal else stores.create sb in
          split_elements store ((sb, url, params) ∷ others) >>= λ (partitions, parts, total).
          if total == 0 then err no_objects else ok (partitions, parts))

  unfoldable pub split_from_storage : Stores → List (Input P) → Result (List (Partition P) × List ℕ)
  unfolding resolve_all split_resolved
  split_from_storage stores elems =
      resolve_all stores.backend elems >>= λ resolved. split_resolved stores resolved

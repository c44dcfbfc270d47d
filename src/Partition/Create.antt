-- ===== src/Partition/Create.antt =====
-- `create_partitions`: the kind of the objects decides who cuts them.
use lithops.Base.{
  ℕ, Bool, Option, none, some, List, [], ◌∷◌, Text, codes, starts_with, if◌then◌else◌,
}
use lithops.Partition.Objects.{Result, ok, err, ◌>>=◌, out_of_fuel, Entry, Partition}
use lithops.Partition.Local.{Chunking, UrlHead, FileSystem, split_url, split_path, expand_paths}
use lithops.Partition.Bucket.{Ref, text, cloud, Input, Stores, split_from_storage}

-- The outside world, as far as the partitioner asks it.
pub record World : Type 0 where
  pub head : Text → UrlHead
  pub files : FileSystem
  pub st_size : Text → ℕ
  pub stores : Stores

-- `threads` is the work of a pool, a list for each thread; `lists` is the result as it is returned;
-- `nothing` is a function that ends without `return`, as for no input.
pub data Created (P : Type 0) : Type 0 where
  threads : List (List (Partition P)) → Created P
  lists : List (Partition P) → List ℕ → Created P
  nothing : Created P

-- `str(elem['obj']).startswith('http')`, and with a slash; str of a CloudObject begins with `<`.
abbrev pub is_url : Ref → Bool
is_url (text t) = starts_with (codes "http") t
is_url (cloud backend bucket key) = starts_with (codes "http") (codes "<CloudObject at ")

abbrev pub is_path : Ref → Bool
is_path (text t) = starts_with (codes "/") t
is_path (cloud backend bucket key) = starts_with (codes "/") (codes "<CloudObject at ")

pub record Parsed (P : Type 0) : Type 0 where
  pub urls : List (Entry P)
  pub paths : List (Entry P)
  pub objects : List (Input P)

-- A url or a path is a text: no CloudObject passes the tests above.
abbrev pub to_entry : {P : Type 0} → Input P → Entry P
to_entry elem = record {
  obj = elim elem.obj [ text t ↦ t | cloud backend bucket key ↦ [] ];
  params = elem.params;
}

module _ {P : Type 0} where
  unfoldable pub parse : List (Input P) → Parsed P
  parse [] = record { urls = []; paths = []; objects = [] }
  parse (elem ∷ elems) =
      let rest = parse elems in
      if is_url elem.obj
      then record rest { urls = to_entry elem ∷ rest.urls }
      else if is_path elem.obj
      then record rest { paths = to_entry elem ∷ rest.paths }
      else record rest { objects = elem ∷ rest.objects }

  abbrev pub split_each :
      (Entry P → Option (List (Partition P))) → List (Entry P) → Result (List (List (Partition P)))
  split_each split [] = ok []
  split_each split (e ∷ es) = elim (split e) [
    | none ↦ err out_of_fuel
    | some mine ↦ split_each split es >>= λ rest. ok (mine ∷ rest)
  ]

  -- The objects of the first kind that there are; the other kinds are dropped.
  unfoldable pub create_partitions : Chunking → World → List (Input P) → Result (Created P)
  unfolding parse split_url split_path expand_paths split_from_storage
  create_partitions opts world map_iterdata =
      let parsed = parse map_iterdata in
      elim parsed.urls [
        | e ∷ es ↦ split_each (split_url opts world.head) parsed.urls >>= λ work. ok (threads work)
        | [] ↦ elim parsed.paths [
          | e ∷ es ↦
              split_each (split_path opts world.st_size) (expand_paths world.files [] parsed.paths)
              >>= λ work. ok (threads work)
          | [] ↦ elim parsed.objects [
            | o ∷ os ↦
                split_from_storage opts world.stores parsed.objects >>= λ (partitions, parts).
                ok (lists partitions parts)
            | [] ↦ ok nothing
          ]
        ]
      ]

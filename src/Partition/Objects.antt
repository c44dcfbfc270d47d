-- ===== src/Partition/Objects.antt =====
-- The entries of the input, the partitions made of them, the errors, and lithops/utils.py's
-- `split_object_url`.
use lithops.Base.{
  ℕ, ◌++◌, Bool, true, false, Option, none, some, List, [], map, Text, codes, text_eq, ends_with,
  cut, rcut, cut_scheme, length, if◌then◌else◌,
}
use lithops.Partition.Split.{Chunk}

pub data Error : Type 0 where
  value_error type_error key_error zero_division_error : Error
  multiple_backends no_objects : Error
  out_of_fuel : Error

pub data Result {ℓ} (A : Type ℓ) : Type ℓ where
  ok : A → Result A
  err : Error → Result A

infixl 5 ◌>>=◌
abbrev pub ◌>>=◌ {ℓ κ} : {A : Type ℓ} {B : Type κ} → Result A → (A → Result B) → Result B
ok a >>= f = f a
err e >>= f = err e

-- The classes of lithops/storage/utils.py. A local object's bucket and key come of its path.
pub data CloudObject : Type 0 where
  object : (backend bucket key : Text) → CloudObject
  url_object : (url : Text) → CloudObject
  local_object : (path : Text) → CloudObject

-- A dictionary of the input: what stands under 'obj', and the other arguments of the call.
pub record Entry (P : Type 0) : Type 0 where
  pub obj : Text
  pub params : P

-- `entry.copy()` with the attributes that `_split` sets on the new object.
pub record Partition (P : Type 0) : Type 0 where
  pub obj : CloudObject
  pub chunk : Chunk
  pub newline : Option Text
  pub total_parts : ℕ
  pub params : P

module _ {P : Type 0} where
  abbrev pub to_partition : CloudObject → Option Text → P → ℕ → Chunk → Partition P
  to_partition obj newline params total chunk = record {
    obj = obj;
    chunk = chunk;
    newline = newline;
    total_parts = total;
    params = params;
  }

  -- The partitions of one object. `total_parts` is set when all of them are there.
  abbrev pub to_partitions : CloudObject → Option Text → P → List Chunk → List (Partition P)
  to_partitions obj newline params chunks =
      map (to_partition obj newline params (length chunks)) chunks

-- `Option` as a truth: `obj_newline is None` fails.
abbrev pub given {ℓ} : {A : Type ℓ} → Option A → Bool
given none = false
given (some a) = true

-- sb = 'ibm_cos' if sb == 'cos', 'aws_s3' if sb == 's3'
abbrev pub backend_alias : Text → Text
backend_alias sb =
    if text_eq sb (codes "cos")
    then codes "ibm_cos"
    else if text_eq sb (codes "s3")
    then codes "aws_s3"
    else sb

pub record ObjectUrl : Type 0 where
  pub sb : Option Text
  pub bucket : Text
  pub prefix : Text
  pub obj_name : Text

abbrev split_scheme : Text → Result (Option Text × Text)
split_scheme url = elim (cut_scheme url) [
  | none ↦ ok (none, url)
  | some (sb, path) ↦ elim (cut_scheme path) [
    | none ↦ ok (some (backend_alias sb), path)
    | some _ ↦ err value_error
  ]
]

abbrev split_bucket : Text → Text × Text
split_bucket path = elim (cut b'/' path) [ some (bucket, key) ↦ (bucket, key) | none ↦ (path, []) ]

-- A trailing slash makes the whole key a prefix, without that slash.
abbrev split_key : Text → Text × Text
split_key full_key = elim (rcut b'/' full_key) [
  | none ↦ ([], full_key)
  | some (prefix, obj_name) ↦
      if ends_with b'/' full_key then (prefix ++ obj_name, []) else (prefix, obj_name)
]

-- More than one `://` makes the unpacking of `obj_url.split('://')` fail.
unfoldable pub split_object_url : Text → Result ObjectUrl
split_object_url obj_url = split_scheme obj_url >>= λ (sb, path).
    let (bucket, full_key) = split_bucket path in
    let (prefix, obj_name) = split_key full_key in
    ok (record { sb = sb; bucket = bucket; prefix = prefix; obj_name = obj_name })

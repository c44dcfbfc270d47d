-- ===== src/Storage/CloudObjects.antt =====
-- `delete_cloudobject` and `delete_cloudobjects` of Storage in lithops/storage/storage.py, and
-- `clean_cloudobjects` of lithops/scripts/cleaner.py. A name of a backend, a bucket or a key is a
-- number.
use lithops.Base.{ℕ, Option, none, some, List, [], ◌∷◌, ◌++◌, map, keep, ◌==◌, if◌then◌else◌}

pub record CloudObject : Type 0 where
  pub backend : ℕ
  pub bucket : ℕ
  pub key : ℕ

-- Keys by bucket, in the order in which the buckets came: a dictionary.
abbrev pub add_key : ℕ → ℕ → List (ℕ × List ℕ) → List (ℕ × List ℕ)
add_key bucket key [] = (bucket, key ∷ []) ∷ []
add_key bucket key ((b, keys) ∷ d) =
    let rest = add_key bucket key d in
    if bucket == b then (b, keys ++ key ∷ []) ∷ d else (b, keys) ∷ rest

abbrev pub keys_in : ℕ → List (ℕ × List ℕ) → Option (List ℕ)
keys_in bucket [] = none
keys_in bucket ((b, keys) ∷ d) =
    let rest = keys_in bucket d in if bucket == b then some keys else rest

-- The dictionary of these by backend.
abbrev pub Cobjs : Type 0
Cobjs = List (ℕ × List (ℕ × List ℕ))

abbrev pub add_object : CloudObject → Cobjs → Cobjs
add_object co [] = (co.backend, add_key co.bucket co.key []) ∷ []
add_object co ((backend, buckets) ∷ cobjs) =
    let rest = add_object co cobjs in
    if co.backend == backend
    then (backend, add_key co.bucket co.key buckets) ∷ cobjs
    else (backend, buckets) ∷ rest

unfoldable pub collect : List CloudObject → Cobjs → Cobjs
collect [] cobjs = cobjs
collect (co ∷ cos) cobjs = collect cos (add_object co cobjs)

-- What was asked of `delete_objects`, and what the loop raised.
pub data Failure : Type 0 where
  key_error invalid_backend : Failure

pub record Deleted : Type 0 where
  pub calls : List (ℕ × List ℕ)
  pub failure : Option Failure

abbrev pub called : ℕ × List ℕ → Deleted → Deleted
called c r = record r { calls = c ∷ r.calls }

-- `for bucket in cobjs[backend]`, where `co` is the one that the loop over the objects has left;
-- `behind` is what comes after.
abbrev pub delete_buckets :
    CloudObject → (all buckets : List (ℕ × List ℕ)) → (behind : Deleted) → Deleted
delete_buckets co all [] behind = behind
delete_buckets co all ((bucket, _) ∷ buckets) behind = elim (keys_in co.bucket all) [
  | some keys ↦ called (bucket, keys) (delete_buckets co all buckets behind)
  | none ↦ record { calls = []; failure = some key_error }
]

unfoldable pub delete_backends : ℕ → CloudObject → Cobjs → Deleted
delete_backends backend co [] = record { calls = []; failure = none }
delete_backends backend co ((b, buckets) ∷ cobjs) =
    let rest = delete_backends backend co cobjs in
    if b == backend
    then delete_buckets co buckets buckets rest
    else record { calls = []; failure = some invalid_backend }

abbrev pub last_object : CloudObject → List CloudObject → CloudObject
last_object co [] = co
last_object co (co' ∷ cos) = last_object co' cos

unfoldable pub delete_cloudobjects : (backend : ℕ) → List CloudObject → Deleted
unfolding collect delete_backends
delete_cloudobjects backend [] = record { calls = []; failure = none }
delete_cloudobjects backend (co ∷ cos) =
    delete_backends backend (last_object co cos) (collect (co ∷ cos) [])

-- `delete_object` of one, or an exception.
unfoldable pub delete_cloudobject : (backend : ℕ) → CloudObject → Option (ℕ × ℕ)
delete_cloudobject backend co = if co.backend == backend then some (co.bucket, co.key) else none

-- The cleaner's: the objects of the other backends are passed over.
unfoldable pub clean_cloudobjects : (backend : ℕ) → List CloudObject → List (ℕ × ℕ)
clean_cloudobjects backend cos_to_clean =
    map (λ co. (co.bucket, co.key)) (keep (λ co. co.backend == backend) cos_to_clean)

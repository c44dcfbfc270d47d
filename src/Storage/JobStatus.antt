-- ===== src/Storage/JobStatus.antt =====
-- `get_job_status` of InternalStorage in lithops/storage/storage.py: the calls that the names of the
-- objects tell of.
use lithops.Base.{
  ℕ, zero, suc, ◌-◌, Bool, ◌||◌, Option, none, some, List, [], ◌∷◌, Text, codes, length,
  starts_with, rcut, cons?, ◌==◌, if◌then◌else◌,
}

-- `sub in s`
abbrev pub contains : Text → Text → Bool
contains sub [] = starts_with sub []
contains sub (c ∷ s) = starts_with sub (c ∷ s) || contains sub s

-- s.split(c)
abbrev pub add_front : ℕ → List Text → List Text
add_front c [] = []
add_front c (t ∷ ts) = (c ∷ t) ∷ ts

abbrev pub split : ℕ → Text → List Text
split c [] = [] ∷ []
split c (x ∷ s) = let rest = split c s in if x == c then [] ∷ rest else add_front x rest

-- s.replace(sub, ''), for a `sub` that is not empty: `skip` characters of it are left to pass over.
abbrev pub remove_from : Text → (skip : ℕ) → Text → Text
remove_from sub skip [] = []
remove_from sub (suc skip) (c ∷ s) = remove_from sub skip s
remove_from sub zero (c ∷ s) =
    let gone = remove_from sub (length sub - 1) s in
    let rest = remove_from sub 0 s in if starts_with sub (c ∷ s) then gone else c ∷ rest

abbrev pub init_key_suffix : Text
init_key_suffix = codes ".init"

abbrev pub status_key_suffix : Text
status_key_suffix = codes "status.json"

-- tuple(job_key.rsplit("-", 1) + [call_id]); a tuple of texts is a list.
abbrev pub call_of : Text → Text → List Text
call_of job_key call_id = elim (rcut b'-' job_key) [
  | none ↦ job_key ∷ call_id ∷ []
  | some (executor_id, job_id) ↦ executor_id ∷ job_id ∷ call_id ∷ []
]

-- k[1], k[2] and k[3] of a running key and of a done one; an IndexError is `none`.
abbrev pub running_of : List Text → Option (List Text × Text)
running_of (_ ∷ job_key ∷ call_id ∷ last ∷ _) =
    some (call_of job_key call_id, remove_from init_key_suffix 0 last)
running_of _ = none

abbrev pub done_of : List Text → Option (List Text)
done_of (_ ∷ job_key ∷ call_id ∷ _) = some (call_of job_key call_id)
done_of _ = none

unfoldable pub running_callids : List Text → Option (List (List Text × Text))
running_callids [] = some []
running_callids (k ∷ keys) =
    let rest = running_callids keys in
    if contains init_key_suffix k
    then elim (running_of (split b'/' k)) [ none ↦ none | some c ↦ cons? c rest ]
    else rest

unfoldable pub done_callids : List Text → Option (List (List Text))
done_callids [] = some []
done_callids (k ∷ keys) =
    let rest = done_callids keys in
    if contains status_key_suffix k
    then elim (done_of (split b'/' k)) [ none ↦ none | some c ↦ cons? c rest ]
    else rest

-- The two sets, as lists. `keys` is the storage's listing under the executor's prefix.
abbrev pub both : {A B : Type 0} → Option A → Option B → Option (A × B)
both (some a) (some b) = some (a, b)
both _ _ = none

unfoldable pub get_job_status : List Text → Option (List (List Text × Text) × List (List Text))
unfolding running_callids done_callids
get_job_status keys = both (running_callids keys) (done_callids keys)

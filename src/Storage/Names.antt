-- ===== src/Storage/Names.antt =====
-- The objects that jobs leave in the storage, and their names.
use lithops.Base.{ℕ, refl, List, [], ◌∷◌, ◌++◌, Text, codes, Lacks}
use lithops.Payload.{
  create_init_key, create_status_key, create_output_key, create_data_key, create_func_key, join_by,
}

-- An object of a job, by what its name is made of.
pub data Stored : Type 0 where
  init_event : (executor_id job_id call_id act_id : Text) → Stored
  status : (executor_id job_id call_id : Text) → Stored
  output : (executor_id job_id call_id : Text) → Stored
  data_of : (executor_id job_id : Text) → Stored
  function : (executor_id function_hash : Text) → Stored

abbrev pub key_of : Stored → Text
key_of (init_event e j c a) = create_init_key e j c a
key_of (status e j c) = create_status_key e j c
key_of (output e j c) = create_output_key e j c
key_of (data_of e j) = create_data_key e j
key_of (function e h) = create_func_key e h

-- put_cloudobject without a key, in a session.
unfoldable pub cloudobject_key : (session coname : Text) → Text
cloudobject_key session coname =
    join_by b'/' (codes "lithops.jobs/tmp" ∷ join_by b'/' (session ∷ coname ∷ []) ∷ [])

-- Of the ids only an executor's has a `-`; none has a `.` or a `/`.
abbrev pub IsId : Text → Type 0
IsId t = Lacks b'/' t × Lacks b'.' t

abbrev pub HasIds : Stored → Type 0
HasIds (init_event e j c a) = IsId e × IsId j × Lacks b'-' j × IsId c × IsId a
HasIds (status e j c) = IsId e × IsId j × Lacks b'-' j × IsId c
HasIds (output e j c) = IsId e × IsId j × Lacks b'-' j × IsId c
HasIds (data_of e j) = IsId e × IsId j
HasIds (function e h) = IsId e × IsId h

abbrev pub AllHaveIds : List Stored → Type 0
AllHaveIds [] = Unit
AllHaveIds (s ∷ ss) = HasIds s × AllHaveIds ss

pub Lacks-append : (c : ℕ) (s t : Text) → Lacks c s → Lacks c t → Lacks c (s ++ t)
Lacks-append c [] t h k = k
Lacks-append c (x ∷ s) t h k = (h.0, Lacks-append c s t h.1 k)

abbrev pub job : Text → Text → Text
job e j = e ++ b'-' ∷ j

pub job-IsId : (e j : Text) → IsId e → IsId j → IsId (job e j)
job-IsId e j he hj = (
  Lacks-append b'/' e (b'-' ∷ j) he.0 (refl, hj.0),
  Lacks-append b'.' e (b'-' ∷ j) he.1 (refl, hj.1),
)

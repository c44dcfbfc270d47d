-- ===== src/Examples/Stored.antt =====
-- The storage.
use lithops.Base.{
  ℕ, ◌≡◌, refl, ap, sym, ◌∙◌, true, false, not, none, some, List, [], ◌∷◌, Text, codes, map, keep,
  starts_with,
}
use lithops.Storage.{
  CloudObject, delete_cloudobjects, get_job_status, Bucket, clean_jobs, Places, get_runtime_meta,
  put_runtime_meta, delete_runtime_meta,
}
use lithops.Storage.Names.{Stored, init_event, status, output, AllHaveIds, key_of}
use lithops.Storage.Listing.{begun, ended, get_job_status-key_of}
use lithops.Storage.Deletions.{delete_cloudobjects-calls}
use lithops.Storage.Cleaned.{Item, of_job, cloud, item_key, is_cleaned, clean_jobs-left}
use lithops.Payload.{create_job_key}
use lithops.Storage.Buckets.{among, IsBucket}
use lithops.Storage.Runtimes.{or_else, get_runtime_meta-after}

abbrev first_object : CloudObject
first_object = record { backend = 0; bucket = 1; key = 10 }

abbrev other_object : CloudObject
other_object = record { backend = 0; bucket = 2; key = 20 }

-- Of two buckets, each is asked to delete the keys of the second.
delete_cloudobjects-calls_example :
    delete_cloudobjects 0 (first_object ∷ other_object ∷ [])
    ≡ record { calls = (1, 20 ∷ []) ∷ (2, 20 ∷ []) ∷ []; failure = none }
delete_cloudobjects-calls_example =
    delete_cloudobjects-calls 0 first_object (other_object ∷ []) (refl, (refl, tt))

abbrev left_behind : List Stored
left_behind =
    init_event (codes "e") (codes "M0") (codes "0") (codes "a")
    ∷ status (codes "e") (codes "M0") (codes "0")
    ∷ output (codes "e") (codes "M1") (codes "0")
    ∷ []

left_behind-ids : AllHaveIds left_behind
left_behind-ids = (
  (
    ((refl, tt), (refl, tt)),
    ((refl, (refl, tt)), (refl, (refl, tt))),
    (refl, (refl, tt)),
    ((refl, tt), (refl, tt)),
    ((refl, tt), (refl, tt)),
  ),
  (
    (
      ((refl, tt), (refl, tt)),
      ((refl, (refl, tt)), (refl, (refl, tt))),
      (refl, (refl, tt)),
      ((refl, tt), (refl, tt)),
    ),
    (
      (
        ((refl, tt), (refl, tt)),
        ((refl, (refl, tt)), (refl, (refl, tt))),
        (refl, (refl, tt)),
        ((refl, tt), (refl, tt)),
      ),
      tt,
    ),
  ),
)

get_job_status-key_of_example :
    get_job_status (map key_of left_behind) ≡ some (begun left_behind, ended left_behind)
get_job_status-key_of_example = get_job_status-key_of left_behind left_behind-ids

-- A storage that is the list of its keys.
abbrev plain : Bucket (List Text)
plain = record {
  list_keys = λ prefix s. keep (starts_with prefix) s;
  delete_objects = λ keys s. keep (λ k. not (among k keys)) s;
}

keep_all : (keys : List Text) → keep (starts_with []) keys ≡ keys
keep_all [] = refl
keep_all (k ∷ keys) = ap (λ l. k ∷ l) (keep_all keys)

plain-IsBucket : IsBucket plain
plain-IsBucket = record {
  lists = λ prefix s. ap (keep (starts_with prefix)) (sym (keep_all s));
  deletes = λ keys s.
      keep_all (keep (λ k. not (among k keys)) s)
      ∙ ap (keep (λ k. not (among k keys))) (sym (keep_all s));
}

-- The cloud object that a call of the job left is under the session's id, not the job's key.
abbrev kept_things : List Item
kept_things =
    cloud (codes "e-M0-0") (codes "c")
    ∷ of_job (status (codes "e") (codes "M0") (codes "0"))
    ∷ of_job (output (codes "e") (codes "M1") (codes "0"))
    ∷ []

clean_jobs-left_example :
    (s' : List Text) × (clean_jobs plain 2 true (codes "e-M0" ∷ []) (map item_key kept_things)
      ≡ some s')
    × (keep (starts_with []) s'
        ≡ map item_key (keep (λ i. not (is_cleaned true (codes "e-M0" ∷ []) i)) kept_things))
unfolding create_job_key
clean_jobs-left_example =
    clean_jobs-left plain 0 true (codes "e-M0" ∷ []) (map item_key kept_things) kept_things
      plain-IsBucket ((refl, (refl, (refl, (refl, tt)))), tt) refl
      (
        (refl, (refl, (refl, (refl, (refl, (refl, tt)))))),
        ((left_behind-ids.1.0, refl), ((left_behind-ids.1.1.0, refl), tt)),
      )
      (keep_all (map item_key kept_things))

abbrev nowhere : Places ℕ
nowhere = record { memory = λ k. none; disk = λ k. none; stored = λ k. none }

get_runtime_meta-after_example :
    ((get_runtime_meta true true 1 (put_runtime_meta true 1 7 nowhere)).0 ≡ some 7)
    × ((get_runtime_meta true true 1 (delete_runtime_meta 1 nowhere)).0 ≡ none)
    × (let (found, later) = get_runtime_meta true true 1 nowhere in
        (get_runtime_meta false true 1 later).0
        ≡ or_else found (get_runtime_meta false true 1 nowhere).0)
get_runtime_meta-after_example = get_runtime_meta-after true false true 1 7 nowhere

-- ===== src/Storage/Cleaned.antt =====
-- What the cleaner leaves of the objects of jobs and of the cloud objects of sessions.
use lithops.Base.{
  ℕ, suc, ◌≡◌, refl, ap, ◌∙◌, Bool, true, false, not, ◌||◌, ◌&&◌, codes, some, List, [], ◌∷◌, ◌++◌,
  map, keep, Text, text_eq, starts_with, Lacks, arith,
}
use lithops.Payload.{
  jobs_prefix, create_init_key, create_status_key, create_output_key, create_data_key,
  create_func_key, create_job_key,
}
use lithops.Storage.Names.{
  Stored, cloudobject_key, init_event, status, output, data_of, function, key_of, HasIds, job-IsId,
}
use lithops.Storage.Cleaner.{Bucket, temp_prefix, folder, clean_jobs}
use lithops.Storage.Buckets.{IsBucket, in_folders, keep_twice, clean_folders-left}

abbrev pub is_one_of : List Text → Text → Bool
is_one_of [] n = false
is_one_of (m ∷ names) n = text_eq m n || is_one_of names n

abbrev pub AllPlain : List Text → Type 0
AllPlain [] = Unit
AllPlain (n ∷ names) = Lacks b'/' n × AllPlain names

-- The folder that an object lies in: its job's, or its executor's for a function.
abbrev pub folder_of : Stored → Text
folder_of (init_event e j c a) = create_job_key e j
folder_of (status e j c) = create_job_key e j
folder_of (output e j c) = create_job_key e j
folder_of (data_of e j) = create_job_key e j
folder_of (function e h) = e

-- A cloud object of a worker's session lies in the session's folder.
pub data Item : Type 0 where
  of_job : Stored → Item
  cloud : (session coname : Text) → Item

abbrev pub item_key : Item → Text
item_key (of_job o) = key_of o
item_key (cloud session coname) = cloudobject_key session coname

abbrev pub tmp : Text
tmp = codes "tmp"

-- An object of a job has ids and lies in another folder than tmp; a session has no slash.
abbrev pub IsItem : Item → Type 0
IsItem (of_job o) = HasIds o × (text_eq tmp (folder_of o) ≡ false)
IsItem (cloud session coname) = Lacks b'/' session

abbrev pub AllItems : List Item → Type 0
AllItems [] = Unit
AllItems (i ∷ items) = IsItem i × AllItems items

-- What is deleted: what lies in a folder that a job's key names, of the jobs or of the sessions.
abbrev pub is_cleaned : (clean_cloudobjects : Bool) → List Text → Item → Bool
is_cleaned clean_cloudobjects jobs_to_clean (of_job o) = is_one_of jobs_to_clean (folder_of o)
is_cleaned clean_cloudobjects jobs_to_clean (cloud session coname) =
    clean_cloudobjects && is_one_of jobs_to_clean session

starts_with-path :
    (m n rest t : Text)
    → Lacks b'/' m
    → Lacks b'/' n
    → starts_with (m ++ b'/' ∷ rest) (n ++ b'/' ∷ t) ≡ (text_eq m n && starts_with rest t)
starts_with-path [] [] rest t h k = refl
starts_with-path [] (x ∷ n) rest t h k = ground arith
starts_with-path (x ∷ m) [] rest t h k = ground arith
starts_with-path (x ∷ m) (y ∷ n) rest t h k = ground (arith, starts_with-path m n rest t h.1 k.1)

and-true : (b : Bool) → (b && true) ≡ b
and-true true = refl
and-true false = refl

starts_with-folder :
    (m n t : Text)
    → Lacks b'/' m
    → Lacks b'/' n
    → starts_with (m ++ b'/' ∷ []) (n ++ b'/' ∷ t) ≡ text_eq m n
starts_with-folder m n t h k = starts_with-path m n [] t h k ∙ and-true (text_eq m n)

in_folder-key_of :
    (n : Text) (o : Stored)
    → Lacks b'/' n
    → HasIds o
    → starts_with (folder jobs_prefix n) (key_of o) ≡ text_eq n (folder_of o)
unfolding create_init_key create_status_key create_output_key create_data_key create_func_key
    create_job_key
in_folder-key_of n (init_event e j c a) h (he, hj, _, _, _) =
    starts_with-folder n (e ++ b'-' ∷ j) _ h (job-IsId e j he hj).0
in_folder-key_of n (status e j c) h (he, hj, _, _) =
    starts_with-folder n (e ++ b'-' ∷ j) _ h (job-IsId e j he hj).0
in_folder-key_of n (output e j c) h (he, hj, _, _) =
    starts_with-folder n (e ++ b'-' ∷ j) _ h (job-IsId e j he hj).0
in_folder-key_of n (data_of e j) h (he, hj) =
    starts_with-folder n (e ++ b'-' ∷ j) _ h (job-IsId e j he hj).0
in_folder-key_of n (function e f) h (he, hf) = starts_with-folder n e _ h he.0

in_folders-key_of :
    (names : List Text) (o : Stored)
    → AllPlain names
    → HasIds o
    → in_folders jobs_prefix names (key_of o) ≡ is_one_of names (folder_of o)
in_folders-key_of [] o h k = refl
in_folders-key_of (n ∷ names) o h k =
    rw (in_folder-key_of n o h.0 k)
      (ap (λ b. text_eq n (folder_of o) || b) (in_folders-key_of names o h.1 k))

tmp-Lacks : Lacks b'/' tmp
tmp-Lacks = (refl, (refl, (refl, tt)))

in_temp-key_of :
    (n : Text) (o : Stored)
    → HasIds o
    → text_eq tmp (folder_of o) ≡ false
    → starts_with (folder temp_prefix n) (key_of o) ≡ false
unfolding create_init_key create_status_key create_output_key create_data_key create_func_key
    create_job_key
in_temp-key_of n (init_event e j c a) (he, hj, _, _, _) ne =
    starts_with-path tmp (e ++ b'-' ∷ j) _ _ tmp-Lacks (job-IsId e j he hj).0 ∙ rw ne refl
in_temp-key_of n (status e j c) (he, hj, _, _) ne =
    starts_with-path tmp (e ++ b'-' ∷ j) _ _ tmp-Lacks (job-IsId e j he hj).0 ∙ rw ne refl
in_temp-key_of n (output e j c) (he, hj, _, _) ne =
    starts_with-path tmp (e ++ b'-' ∷ j) _ _ tmp-Lacks (job-IsId e j he hj).0 ∙ rw ne refl
in_temp-key_of n (data_of e j) (he, hj) ne =
    starts_with-path tmp (e ++ b'-' ∷ j) _ _ tmp-Lacks (job-IsId e j he hj).0 ∙ rw ne refl
in_temp-key_of n (function e f) (he, hf) ne = starts_with-path tmp e _ _ tmp-Lacks he.0 ∙ rw ne refl

in_temps-key_of :
    (names : List Text) (o : Stored)
    → HasIds o
    → text_eq tmp (folder_of o) ≡ false
    → in_folders temp_prefix names (key_of o) ≡ false
in_temps-key_of [] o h ne = refl
in_temps-key_of (n ∷ names) o h ne = rw (in_temp-key_of n o h ne) (in_temps-key_of names o h ne)

in_temps-cloud :
    (names : List Text) (session coname : Text)
    → AllPlain names
    → Lacks b'/' session
    → in_folders temp_prefix names (cloudobject_key session coname) ≡ is_one_of names session
unfolding cloudobject_key
in_temps-cloud [] session coname plain h = refl
in_temps-cloud (n ∷ names) session coname plain h =
    rw (starts_with-folder n session coname plain.0 h)
      (ap (λ b. text_eq n session || b) (in_temps-cloud names session coname plain.1 h))

or-false_right : (b : Bool) → (b || false) ≡ b
or-false_right true = refl
or-false_right false = refl

or-false : (a b : Bool) → (a || b) ≡ false → (a ≡ false) × (b ≡ false)
or-false true b e = cc
or-false false b e = (refl, e)

in_folders-cloud :
    (names : List Text) (session coname : Text)
    → AllPlain names
    → is_one_of names tmp ≡ false
    → in_folders jobs_prefix names (cloudobject_key session coname) ≡ false
unfolding cloudobject_key
in_folders-cloud [] session coname plain none_tmp = refl
in_folders-cloud (n ∷ names) session coname plain none_tmp =
    let here = starts_with-folder n tmp (session ++ b'/' ∷ coname) plain.0 tmp-Lacks in
    let (first, later) = or-false (text_eq n tmp) (is_one_of names tmp) none_tmp in
    rw (here, first) (in_folders-cloud names session coname plain.1 later)

-- A test of keys, and the same of items.
keep-items :
    (f : Text → Bool) (g : Item → Bool) (items : List Item)
    → ((i : Item) → IsItem i → f (item_key i) ≡ g i)
    → AllItems items
    → keep (λ k. not (f k)) (map item_key items) ≡ map item_key (keep (λ i. not (g i)) items)
keep-items f g [] same all = refl
keep-items f g (i ∷ items) same (h, all) = ground (arith, same i h, keep-items f g items same all)

module _ (names : List Text) (plain : AllPlain names) (none_tmp : is_one_of names tmp ≡ false) where
  jobs-item :
      (i : Item) → IsItem i → in_folders jobs_prefix names (item_key i) ≡ is_cleaned false names i
  jobs-item (of_job o) (ids, ne) = in_folders-key_of names o plain ids
  jobs-item (cloud session coname) h = in_folders-cloud names session coname plain none_tmp

  both-item :
      (i : Item)
      → IsItem i
      → (in_folders jobs_prefix names (item_key i) || in_folders temp_prefix names (item_key i))
        ≡ is_cleaned true names i
  both-item (of_job o) (ids, ne) =
      ap (λ b. in_folders jobs_prefix names (key_of o) || b) (in_temps-key_of names o ids ne)
      ∙ or-false_right (in_folders jobs_prefix names (key_of o))
      ∙ in_folders-key_of names o plain ids
  both-item (cloud session coname) h =
      ap (λ b. b || in_folders temp_prefix names (cloudobject_key session coname))
        (in_folders-cloud names session coname plain none_tmp)
      ∙ in_temps-cloud names session coname plain h

-- With fuel of two rounds for each folder the cleaner ends, for jobs whose keys have no `/` and are
-- not `tmp`, and a storage that lists by prefix and does not list again what was deleted. The
-- storage holds objects of jobs, whose ids have no `.` and no `/`, and the jobs' no `-`, in folders
-- that are not `tmp`, and cloud objects under the ids of sessions without a `/`. Exactly these are
-- left, in order: the objects in the folders of none of the jobs to clean, and all cloud objects,
-- except, if they are cleaned too, those of a session whose id is itself the key of one of the jobs.
pub clean_jobs-left :
    {S : Type 0} (bucket : Bucket S) (fuel : ℕ) (clean_cloudobjects : Bool)
    (jobs_to_clean : List Text) (s : S) (items : List Item)
    → IsBucket bucket
    → AllPlain jobs_to_clean
    → is_one_of jobs_to_clean tmp ≡ false
    → AllItems items
    → bucket.list_keys [] s ≡ map item_key items
    → (s' : S) × (clean_jobs bucket (suc (suc fuel)) clean_cloudobjects jobs_to_clean s ≡ some s')
      × (bucket.list_keys [] s'
          ≡ map item_key (keep (λ i. not (is_cleaned clean_cloudobjects jobs_to_clean i)) items))
unfolding clean_jobs
clean_jobs-left bucket fuel false jobs_to_clean s items is plain none_tmp all there =
    let (s', cleaned, left) = clean_folders-left bucket is fuel jobs_prefix jobs_to_clean s in
    (
      s',
      rw (clean_jobs, cleaned) refl,
      left
          ∙ ap (keep (λ k. not (in_folders jobs_prefix jobs_to_clean k))) there
          ∙ keep-items (in_folders jobs_prefix jobs_to_clean) (is_cleaned false jobs_to_clean) items
              (jobs-item jobs_to_clean plain none_tmp) all,
    )
clean_jobs-left bucket fuel true jobs_to_clean s items is plain none_tmp all there =
    let (s1, cleaned, left) = clean_folders-left bucket is fuel jobs_prefix jobs_to_clean s in
    let (s2, cleaned2, left2) = clean_folders-left bucket is fuel temp_prefix jobs_to_clean s1 in
    let in_jobs = in_folders jobs_prefix jobs_to_clean in
    let in_temp = in_folders temp_prefix jobs_to_clean in
    (
      s2,
      rw (clean_jobs, cleaned) cleaned2,
      left2
          ∙ ap (keep (λ k. not (in_temp k))) left
          ∙ keep_twice in_jobs in_temp (bucket.list_keys [] s)
          ∙ ap (keep (λ k. not (in_jobs k || in_temp k))) there
          ∙ keep-items (λ k. in_jobs k || in_temp k) (is_cleaned true jobs_to_clean) items
              (both-item jobs_to_clean plain none_tmp) all,
    )

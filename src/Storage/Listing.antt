-- ===== src/Storage/Listing.antt =====
-- What `get_job_status` reads off the names of the objects that a job leaves.
use lithops.Base.{
  ◌≡◌, refl, ap, ◌∙◌, true, false, some, List, [], ◌∷◌, ◌++◌, map, Text, codes, Lacks, rcut-append,
  cons?,
}
use lithops.Payload.{
  create_init_key, create_status_key, create_output_key, create_data_key, create_func_key,
  create_job_key, jobs_prefix,
}
use lithops.Storage.JobStatus.{
  contains, split, init_key_suffix, status_key_suffix, call_of, running_of, done_of,
  running_callids, done_callids, get_job_status,
}
use lithops.Storage.Names.{
  Stored, init_event, status, output, data_of, function, key_of, IsId, AllHaveIds, Lacks-append,
  job, job-IsId,
}
use lithops.Storage.Patterns.{
  contains_dot, contains-outside, contains-dots, split-append, split-Lacks, remove_from-append,
  has_dot,
}

-- The calls that have begun, with their activations, and the calls that have ended.
abbrev pub begun : List Stored → List (List Text × Text)
begun [] = []
begun (init_event e j c a ∷ ss) = (e ∷ j ∷ c ∷ [], a) ∷ begun ss
begun (status e j c ∷ ss) = begun ss
begun (output e j c ∷ ss) = begun ss
begun (data_of e j ∷ ss) = begun ss
begun (function e h ∷ ss) = begun ss

abbrev pub ended : List Stored → List (List Text)
ended [] = []
ended (init_event e j c a ∷ ss) = ended ss
ended (status e j c ∷ ss) = (e ∷ j ∷ c ∷ []) ∷ ended ss
ended (output e j c ∷ ss) = ended ss
ended (data_of e j ∷ ss) = ended ss
ended (function e h ∷ ss) = ended ss

abbrev key : Text → Text → Text → Text → Text
key e j c last = jobs_prefix ++ b'/' ∷ (job e j ++ b'/' ∷ (c ++ b'/' ∷ last))

status_key_suffix-Lacks : Lacks b'/' status_key_suffix
status_key_suffix-Lacks =
    (refl, (refl, (refl, (refl, (refl, (refl, (refl, (refl, (refl, (refl, (refl, tt)))))))))))

-- The name of an object of a call.
module _ (e j c last : Text) (he : IsId e) (hj : IsId j) (no_dash : Lacks b'-' j)
    (hc : IsId c) where
  init_in : contains init_key_suffix (key e j c last) ≡ contains init_key_suffix last
  init_in =
      contains_dot (codes "init") (job e j) (b'/' ∷ (c ++ b'/' ∷ last)) (job-IsId e j he hj).1
      ∙ contains_dot (codes "init") c (b'/' ∷ last) hc.1

  status_in : contains status_key_suffix (key e j c last) ≡ contains status_key_suffix last
  unfolding has_dot
  status_in =
      contains-outside b'/' status_key_suffix (job e j) (c ++ b'/' ∷ last) status_key_suffix-Lacks
        refl (job-IsId e j he hj).1
      ∙ contains-outside b'/' status_key_suffix c last status_key_suffix-Lacks refl hc.1

  split_key : split b'/' (key e j c last) ≡ jobs_prefix ∷ job e j ∷ c ∷ split b'/' last
  split_key =
      ap (λ r. jobs_prefix ∷ r)
        (split-append b'/' (job e j) (c ++ b'/' ∷ last) (job-IsId e j he hj).0
          ∙ ap (λ r. job e j ∷ r) (split-append b'/' c last hc.0))

  call_of_job : call_of (job e j) c ≡ e ∷ j ∷ c ∷ []
  call_of_job = rw (call_of, rcut-append b'-' e j no_dash) refl

codes-Lacks : Lacks b'.' (codes "status")
codes-Lacks = (refl, (refl, (refl, (refl, (refl, (refl, tt))))))

running_here :
    (k : Text) (keys : List Text) {c : List Text × Text}
    → contains init_key_suffix k ≡ true
    → running_of (split b'/' k) ≡ some c
    → running_callids (k ∷ keys) ≡ cons? c (running_callids keys)
unfolding running_callids
running_here k keys here is = rw (here, is) refl

running_past :
    (k : Text) (keys : List Text)
    → contains init_key_suffix k ≡ false
    → running_callids (k ∷ keys) ≡ running_callids keys
unfolding running_callids
running_past k keys past = rw past refl

done_here :
    (k : Text) (keys : List Text) {c : List Text}
    → contains status_key_suffix k ≡ true
    → done_of (split b'/' k) ≡ some c
    → done_callids (k ∷ keys) ≡ cons? c (done_callids keys)
unfolding done_callids
done_here k keys here is = rw (here, is) refl

done_past :
    (k : Text) (keys : List Text)
    → contains status_key_suffix k ≡ false
    → done_callids (k ∷ keys) ≡ done_callids keys
unfolding done_callids
done_past k keys past = rw past refl

running-begun :
    (ss : List Stored) → AllHaveIds ss → running_callids (map key_of ss) ≡ some (begun ss)
unfolding running_callids create_init_key create_status_key create_output_key create_data_key
    create_func_key create_job_key
running-begun [] h = refl
running-begun (init_event e j c a ∷ ss) ((he, hj, dash, hc, ha), h) =
    let last = a ++ init_key_suffix in
    let here =
      init_in e j c last he hj dash hc ∙ contains_dot (codes "init") a init_key_suffix ha.1 in
    let parts : split b'/' (key e j c last) ≡ _ =
      split_key e j c last he hj dash hc
      ∙ ap (λ r. jobs_prefix ∷ job e j ∷ c ∷ r)
          (split-Lacks b'/' last (
            Lacks-append b'/' a init_key_suffix ha.0 (refl, (refl, (refl, (refl, (refl, tt))))))) in
    let is : running_of (split b'/' (key e j c last)) ≡ some (e ∷ j ∷ c ∷ [], a) =
      ap running_of parts
      ∙ rw (running_of, call_of_job e j c last he hj dash hc, remove_from-append a ha.1) refl in
    running_here (key e j c last) (map key_of ss) here is
    ∙ ap (cons? (e ∷ j ∷ c ∷ [], a)) (running-begun ss h)
running-begun (status e j c ∷ ss) ((he, hj, dash, hc), h) =
    running_past (key e j c (codes "status.json")) (map key_of ss)
      (init_in e j c (codes "status.json") he hj dash hc)
    ∙ running-begun ss h
running-begun (output e j c ∷ ss) ((he, hj, dash, hc), h) =
    running_past (key e j c (codes "output.pickle")) (map key_of ss)
      (init_in e j c (codes "output.pickle") he hj dash hc)
    ∙ running-begun ss h
running-begun (data_of e j ∷ ss) ((he, hj), h) =
    let past =
      contains_dot (codes "init") (job e j) (b'/' ∷ codes "aggdata.pickle")
        (job-IsId e j he hj).1 in
    running_past (key_of (data_of e j)) (map key_of ss) past ∙ running-begun ss h
running-begun (function e f ∷ ss) ((he, hf), h) =
    let last = b'.' ∷ codes "func.pickle" in
    let past =
      contains_dot (codes "init") e (b'/' ∷ (f ++ last)) he.1
      ∙ contains_dot (codes "init") f last hf.1 in
    running_past (key_of (function e f)) (map key_of ss) past ∙ running-begun ss h

done-ended : (ss : List Stored) → AllHaveIds ss → done_callids (map key_of ss) ≡ some (ended ss)
unfolding create_init_key create_status_key create_output_key create_data_key create_func_key
    create_job_key has_dot done_callids
done-ended [] h = refl
done-ended (init_event e j c a ∷ ss) ((he, hj, dash, hc, ha), h) =
    let last = a ++ init_key_suffix in
    let past =
      status_in e j c last he hj dash hc
      ∙ contains-dots (codes "status") (codes "json") a (codes "init") codes-Lacks ha.1 refl in
    done_past (key e j c last) (map key_of ss) past ∙ done-ended ss h
done-ended (status e j c ∷ ss) ((he, hj, dash, hc), h) =
    let last = status_key_suffix in
    let is : done_of (split b'/' (key e j c last)) ≡ some (e ∷ j ∷ c ∷ []) =
      ap done_of (split_key e j c last he hj dash hc)
      ∙ ap some (call_of_job e j c last he hj dash hc) in
    done_here (key e j c last) (map key_of ss) (status_in e j c last he hj dash hc) is
    ∙ ap (cons? (e ∷ j ∷ c ∷ [])) (done-ended ss h)
done-ended (output e j c ∷ ss) ((he, hj, dash, hc), h) =
    let last = codes "output.pickle" in
    done_past (key e j c last) (map key_of ss) (status_in e j c last he hj dash hc)
    ∙ done-ended ss h
done-ended (data_of e j ∷ ss) ((he, hj), h) =
    let past =
      contains-outside b'/' status_key_suffix (job e j) (codes "aggdata.pickle")
        status_key_suffix-Lacks refl (job-IsId e j he hj).1 in
    done_past (key_of (data_of e j)) (map key_of ss) past ∙ done-ended ss h
done-ended (function e f ∷ ss) ((he, hf), h) =
    let past =
      contains-outside b'/' status_key_suffix e (f ++ b'.' ∷ codes "func.pickle")
        status_key_suffix-Lacks refl he.1
      ∙ contains-dots (codes "status") (codes "json") f (codes "func.pickle") codes-Lacks hf.1
          refl in
    done_past (key_of (function e f)) (map key_of ss) past ∙ done-ended ss h

-- From the names of all objects that jobs leave, whose ids have no `.` and no `/`, and the jobs'
-- no `-`, exactly the calls that have begun are read off, each with its activation, and the calls
-- that have ended.
pub get_job_status-key_of :
    (ss : List Stored) → AllHaveIds ss → get_job_status (map key_of ss) ≡ some (begun ss, ended ss)
unfolding get_job_status
get_job_status-key_of ss h = rw (running-begun ss h, done-ended ss h) refl

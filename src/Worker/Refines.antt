-- ===== src/Worker/Refines.antt =====
-- A call on a worker against the call itself: what its future gives.
use lithops.Base.{
  ℕ, zero, suc, ◌-◌, ◌<◌, ◌≡◌, refl, ◌∙◌, Bool, true, false, Option, none, some, List, [], ◌∷◌,
  ◌++◌, Text, codes, length, ltb, ◌==◌, max, text_eq, text_eq_refl, Bool-cases, inl, inr, arith,
}
use lithops.Payload.{create_status_key, create_output_key, create_job_key, jobs_prefix}
use lithops.Future.{
  CallStatus, end, Future, fresh, set_invoked, Storage, Outcome, returned, reraised, Output, value,
  futures, result, status, process_status, poll_output, query_status, after_status, finish_result,
  load_output, settle,
}
use lithops.Future.Lifecycle.{poll_some}
use lithops.Worker.Runner.{
  Called, raises, returns_none, returns_futures, returns_value, returns_unpicklable,
  max_result_in_status, run_function, func_result_size, Stat,
}
use lithops.Worker.Task.{
  Raised, by_function, timeout_error, memory_error, Process, finished, still_alive, killed, Ids,
  Object, output, call_status, read_process, send, create_call_status, add_all, add, put_output,
  run_task, storage_of,
}

-- What the caller is to see of a call, and of one in a process.
abbrev pub outcome : {E : Type 0} → Called E → Outcome (Raised E) (Option (Output Text))
outcome (raises e) = reraised (by_function e)
outcome returns_none = returned none
outcome (returns_futures fs) = returned (some (futures fs))
outcome (returns_value v) = returned (some (value v))
outcome (returns_unpicklable e) = reraised (by_function e)

abbrev pub expected : {E : Type 0} → Called E → Process → Outcome (Raised E) (Option (Output Text))
expected called finished = outcome called
expected called still_alive = reraised timeout_error
expected called killed = reraised memory_error

text_eq-cons : (c : ℕ) (t u : Text) → text_eq (c ∷ t) (c ∷ u) ≡ text_eq t u
text_eq-cons c t u = ground arith

-- Texts that begin alike are told apart by their rests.
text_eq-append : (s t u : Text) → text_eq (s ++ t) (s ++ u) ≡ text_eq t u
text_eq-append [] t u = refl
text_eq-append (c ∷ s) t u = text_eq-cons c (s ++ t) (s ++ u) ∙ text_eq-append s t u

-- Texts of four parts, of which the last two may differ.
parts_apart :
    (c : ℕ) (s t u v w : Text)
    → text_eq (s ++ c ∷ (t ++ c ∷ (u ++ c ∷ v))) (s ++ c ∷ (t ++ c ∷ (u ++ c ∷ w))) ≡ text_eq v w
parts_apart c s t u v w =
    text_eq-append s (c ∷ (t ++ c ∷ (u ++ c ∷ v))) (c ∷ (t ++ c ∷ (u ++ c ∷ w)))
    ∙ text_eq-cons c (t ++ c ∷ (u ++ c ∷ v)) (t ++ c ∷ (u ++ c ∷ w))
    ∙ text_eq-append t (c ∷ (u ++ c ∷ v)) (c ∷ (u ++ c ∷ w))
    ∙ text_eq-cons c (u ++ c ∷ v) (u ++ c ∷ w)
    ∙ text_eq-append u (c ∷ v) (c ∷ w)
    ∙ text_eq-cons c v w

output-ne-status :
    (ids : Ids)
    → text_eq
        (create_output_key ids.executor_id ids.job_id ids.call_id)
        (create_status_key ids.executor_id ids.job_id ids.call_id)
      ≡ false
unfolding create_output_key create_status_key
output-ne-status ids =
    parts_apart 47 jobs_prefix (create_job_key ids.executor_id ids.job_id) ids.call_id
      (codes "output.pickle") (codes "status.json")

module _ {V E : Type 0} (storage : Storage V E) where
  poll_output_now :
      (n : ℕ) (f : Future V E) {v : V}
      → 0 < n
      → storage.get_call_output f.output_query_count ≡ some v
      → (poll_output n storage f).0 ≡ some v
  unfolding poll_output
  poll_output_now zero f p there = elim p [ ]
  poll_output_now (suc n) f p there = rw (poll_output, there) refl

  load_output_now :
      (retries : ℕ) (f : Future V E) {v : V}
      → storage.get_call_output f.output_query_count ≡ some v
      → (load_output retries true storage f).0 ≡ returned (some (value v))
  unfolding load_output
  load_output_now retries f there =
      rw
        (
          load_output,
          poll_output_now (max 1 (retries - f.output_query_count)) f (omega arith) there,
        )
        refl

  -- The status is there at the first query.
  result_now :
      (fuel retries : ℕ) (cs : CallStatus V E)
      → storage.get_call_status 0 ≡ some cs
      → (result (suc fuel) retries true storage (set_invoked fresh)).0 ≡ (
          let r = process_status true cs (query_status storage (set_invoked fresh)) in
          (after_status retries true storage r.0 r.1).0)
  unfolding set_invoked fresh result after_status
  result_now fuel retries cs there =
      rw (result, status, poll_some fuel storage (query_status storage (set_invoked fresh)) there)
        refl

abbrev status_key : Ids → Text
status_key ids = create_status_key ids.executor_id ids.job_id ids.call_id

abbrev output_key : Ids → Text
output_key ids = create_output_key ids.executor_id ids.job_id ids.call_id

-- The client's view of the worker's objects.
module _ {E : Type 0} (ids : Ids) (cs : CallStatus Text (Raised E)) where
  status_there :
      (stored : List (Text × Object E))
      → (storage_of ids ((status_key ids, call_status cs) ∷ stored)).get_call_status 0 ≡ some cs
  unfolding storage_of
  status_there stored = rw (text_eq_refl (status_key ids)) refl

  output_there :
      (stored : List (Text × Object E)) (v : Text)
      → (storage_of ids (
            (status_key ids, call_status cs) ∷ (output_key ids, output v) ∷ stored)).get_call_output
          0
        ≡ some v
  unfolding storage_of
  output_there stored v = rw (output-ne-status ids, text_eq_refl (output_key ids)) refl

-- What the client of a worker gets.
module _ {E : Type 0} (ids : Ids) (fuel retries : ℕ) (stored : List (Text × Object E)) where
  abbrev client : Called E → Process → Bool → Outcome (Raised E) (Option (Output Text))
  client called process uploaded =
      (result (suc fuel) retries true (storage_of ids (run_task ids called process uploaded stored))
        (set_invoked fresh)).0

  run_value :
      (v : Text) (uploaded : Bool)
      → run_task ids (returns_value v) finished uploaded stored ≡ (
          let ran = run_function (returns_value v) in
          (
            status_key ids,
            call_status
                (record (read_process finished ran.stats create_call_status) { type = end }),
          )
          ∷ put_output ids ran.output (send ids create_call_status stored))
  unfolding run_task send
  run_value v uploaded = refl

  run_small :
      (v : Text)
      → ltb (length v) max_result_in_status ≡ true
      → run_function {E = E} (returns_value v) ≡ record {
        stats = func_result_size 0 ∷ func_result_size (length v) ∷ Stat.result v ∷ [];
        output = none;
      }
  unfolding run_function
  run_small v small = rw small refl

  run_large :
      (v : Text)
      → ltb (length v) max_result_in_status ≡ false
      → run_function {E = E} (returns_value v)
        ≡ record { stats = func_result_size 0 ∷ func_result_size (length v) ∷ []; output = some v }
  unfolding run_function
  run_large v large = rw large refl

  returned_small :
      (n : ℕ) (v : Text) (storage : Storage Text (Raised E))
      → (let r =
            process_status true
              (record {
                type = end;
                exception = none;
                new_futures = none;
                func_result_size = some n;
                result = some v;
              })
              (query_status storage (set_invoked fresh)) in
          (after_status retries true storage r.0 r.1).0)
        ≡ returned (some (value v))
  unfolding process_status after_status finish_result set_invoked fresh
  returned_small n v storage = ground arith

  returned_large :
      (n : ℕ) (v : Text) (storage : Storage Text (Raised E))
      → (n == 0) ≡ false
      → storage.get_call_output 0 ≡ some v
      → (let r =
            process_status true
              (record {
                type = end;
                exception = none;
                new_futures = none;
                func_result_size = some n;
                result = none;
              })
              (query_status storage (set_invoked fresh)) in
          (after_status retries true storage r.0 r.1).0)
        ≡ returned (some (value v))
  unfolding process_status after_status finish_result set_invoked fresh
  returned_large n v storage bytes there =
      let g = settle (query_status storage (set_invoked fresh)) in
      ground (arith, load_output_now storage retries g there)

  returned_value :
      (v : Text) (uploaded : Bool)
      → client (returns_value v) finished uploaded ≡ returned (some (value v))
  unfolding read_process add_all add put_output create_call_status
  returned_value v uploaded = elim (Bool-cases (ltb (length v) max_result_in_status)) [
    | inl small ↦
        rw (client, run_value v uploaded, run_small v small)
          (result_now _ fuel retries _ (status_there ids _ _) ∙ returned_small _ v _)
    | inr large ↦
        let bytes : (length v == 0) ≡ false = ground arith in
        let there = output_there ids _ _ v in
        rw (client, run_value v uploaded, run_large v large)
          (result_now _ fuel retries _ (status_there ids _ _) ∙ returned_large _ v _ bytes there)
  ]

  -- A client that asks for the result of a call that a worker has run, first and at once, gets
  -- what the call itself gives: its value, small or large, its futures, None, or its exception; an
  -- exception of the handler, if the process was still alive or was killed, whether or not it had
  -- uploaded its output.
  pub run_task-expected :
      (called : Called E) (process : Process) (uploaded : Bool)
      → client called process uploaded ≡ expected called process
  unfolding run_task run_function read_process set_invoked fresh process_status after_status
      finish_result send create_call_status add_all add put_output
  run_task-expected called still_alive uploaded = result_now _ fuel retries _ (status_there ids _ _)
  run_task-expected called killed uploaded = result_now _ fuel retries _ (status_there ids _ _)
  run_task-expected (raises e) finished uploaded =
      result_now _ fuel retries _ (status_there ids _ _)
  run_task-expected returns_none finished uploaded =
      result_now _ fuel retries _ (status_there ids _ _)
  run_task-expected (returns_futures fs) finished uploaded =
      result_now _ fuel retries _ (status_there ids _ _)
  run_task-expected (returns_unpicklable e) finished uploaded =
      result_now _ fuel retries _ (status_there ids _ _)
  run_task-expected (returns_value v) finished uploaded = returned_value v uploaded

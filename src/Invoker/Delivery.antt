-- ===== src/Invoker/Delivery.antt =====
-- The data of a job's calls, from its creation through the invoker's tasks to the workers.
use lithops.Base.{
  ℕ, zero, suc, ◌+◌, ◌-◌, ◌<◌, ◌≤◌, ◌≡◌, refl, sym, ap, ◌∙◌, Option, some, List, [], ◌∷◌, ◌++◌,
  Text, append_assoc, append-nil, ◌*◌, ltb, take, drop, length, take-take, drop-drop,
  take-append-drop, take_all, Bool-cases, inl, inr, arith,
}
use mathlib.Core.Option.{some-injective}
use lithops.Job.{Config, Libraries, Request, World, store_job}
use lithops.Payload.{Last, agg_data}
use lithops.Payload.Pieces.{flatten, AllWithin, iterchunks_lem}
use lithops.Payload.Ranges.{NonEmpty, AnswersRanges}
use lithops.Invoker.Queue.{
  Invoker, range_from, to_tasks, queued, distribute, invoke_job, drain, ensure_running,
  start_async_invokers,
}
use lithops.Invoker.Tasks.{worker_data, workers_data}
use lithops.Invoker.Loads.{worker_data_lem}

range-take :
    (c rest : List ℕ) (a m : ℕ)
    → c ++ rest ≡ range_from a m
    → (c ≡ range_from a (length c))
      × (rest ≡ range_from (a + length c) (m - length c))
      × (length c ≤ m)
range-take [] rest a m e =
    let start : a + 0 ≡ a = omega arith in
    let all : m - 0 ≡ m = omega arith in (refl, rw (start, all) e, omega arith)
range-take (x ∷ c) rest a zero e = absurd (cc)
range-take (x ∷ c) rest a (suc m) e =
    let first : x ≡ a = cc in
    let (same, left, le) = range-take c rest (suc a) m (cc) in
    let start : a + suc (length c) ≡ suc a + length c = omega arith in
    let fewer : suc m - suc (length c) ≡ m - length c = omega arith in
    (ap (λ y. y ∷ c) first ∙ ap (λ l. a ∷ l) same, rw (start, fewer) left, omega arith)

-- Workers of consecutive chunks load consecutive data.
workers_data-flatten :
    (load : List ℕ → Option (List Text)) (xs : List Text)
    → ((i n : ℕ) → 0 < n → i + n ≤ length xs → load (range_from i n) ≡ some (take n (drop i xs)))
    → (cs : List (List ℕ)) (cz a m : ℕ) → AllWithin cz cs
    → flatten cs ≡ range_from a m
    → a + m ≤ length xs
    → workers_data load cs ≡ some (take m (drop a xs))
unfolding workers_data
workers_data-flatten load xs loads [] cz a zero within e le = refl
workers_data-flatten load xs loads [] cz a (suc m) within e le = absurd (cc)
workers_data-flatten load xs loads (c ∷ cs) cz a m (full, _, within) e le =
    let k = length c in
    let (same, left, few) = range-take c (flatten cs) a m e in
    let mine = ap load same ∙ loads a k full (omega arith) in
    let rest = workers_data-flatten load xs loads cs cz (a + k) (m - k) within left (omega arith) in
    let sum : k + (m - k) ≡ m = omega arith in
    let joined =
      ap (λ l. take k (drop a xs) ++ take (m - k) l) (drop-drop a k xs)
      ∙ take-take k (m - k) (drop a xs)
      ∙ ap (λ n. take n (drop a xs)) sum in
    rw (mine, workers_data, rest) (ap some joined)

AllWithin-append :
    {A : Type 0} (n : ℕ) (cs ds : List (List A))
    → AllWithin n cs
    → AllWithin n ds
    → AllWithin n (cs ++ ds)
AllWithin-append n [] ds h k = k
AllWithin-append n (c ∷ cs) ds (full, le, h) k = (full, le, AllWithin-append n cs ds h k)

flatten-append :
    {A : Type 0} (cs ds : List (List A)) → flatten (cs ++ ds) ≡ flatten cs ++ flatten ds
flatten-append [] ds = refl
flatten-append (c ∷ cs) ds =
    ap (λ l. c ++ l) (flatten-append cs ds) ∙ sym (append_assoc c (flatten cs) (flatten ds))

-- The chunks that are invoked at once and those that wait.
distribute_lem :
    (max_workers id total cz : ℕ) (v : Invoker) {v' : Invoker}
    → 0 < cz
    → distribute max_workers id total cz v ≡ some v'
    → (now later : List (List ℕ)) × (v'.submitted ≡ v.submitted ++ to_tasks id now)
      × (v'.pending_calls_q ≡ v.pending_calls_q ++ queued (to_tasks id later))
      × (flatten (now ++ later) ≡ range_from 0 total)
      × AllWithin cz (now ++ later)
unfolding distribute
distribute_lem max_workers id total cz v {v'} p e =
    let calls = range_from 0 total in
    let k = (max_workers - v.running_workers) * cz in
    let (now, at_once, whole_now, within_now, _) = iterchunks_lem (take k calls) cz p in
    let (later, waits, whole_later, within_later, _) = iterchunks_lem (drop k calls) cz p in
    let (all, none_free, whole, within, _) = iterchunks_lem calls cz p in
    elim (Bool-cases (ltb v.running_workers max_workers)) [
      | inl free ↦
          let same = some-injective _ _ (rw (free, distribute, at_once, waits) at e) in
          (
            now,
            later,
            sym (ap (λ (x : Invoker). x.submitted) same),
            sym (ap (λ (x : Invoker). x.pending_calls_q) same),
            flatten-append now later
                ∙ ap (λ l. l ++ flatten later) whole_now
                ∙ ap (λ l. take k calls ++ l) whole_later
                ∙ take-append-drop k calls,
            AllWithin-append cz now later within_now within_later,
          )
      | inr busy ↦
          let same = some-injective _ _ (rw (busy, distribute, none_free) at e) in
          (
            [],
            all,
            sym (ap (λ (x : Invoker). x.submitted) same) ∙ sym (append-nil v.submitted),
            sym (ap (λ (x : Invoker). x.pending_calls_q) same),
            whole,
            within,
          )
    ]

total_calls_lem :
    {F D : Type 0} (libs : Libraries F D) (config : Config) (r : Request F D)
    (func_module_str : Text) (data_strs : List Text) (w : World)
    → (store_job libs config r func_module_str data_strs w).0.total_calls ≡ length r.iterdata
unfolding store_job
total_calls_lem libs config r func_module_str data_strs w = refl

ready : Invoker → Invoker
ready v = drain (ensure_running v)

ready_same :
    (v : Invoker)
    → ((ready v).submitted ≡ v.submitted) × ((ready v).pending_calls_q ≡ v.pending_calls_q)
unfolding ready drain ensure_running start_async_invokers
ready_same v = elim (Bool-cases v.should_run) [
  | inl e ↦ rw e (refl, refl)
  | inr e ↦ rw e (refl, refl)
]

-- A job whose data are not empty, one datum for each call, in chunks of one call or more, is given to
-- the invoker, from any state of it: its tasks are added to those that are submitted and to those
-- that wait, and the workers of these tasks, each with its own payload, together load the data of all
-- calls in order, whether the payloads carry the data or ranges of what is stored, from a storage
-- that answers ranges.
pub invoke_job-data :
    {F D : Type 0} (libs : Libraries F D) (config : Config) (r : Request F D)
    (func_module_str : Text) (data_strs : List Text) (w : World)
    (get_data : Option (ℕ × Last) → Text) (max_workers id : ℕ) (v : Invoker) {v' : Invoker}
    → NonEmpty data_strs
    → AnswersRanges get_data (agg_data data_strs).0
    → length r.iterdata ≡ length data_strs
    → 0 < (store_job libs config r func_module_str data_strs w).0.chunksize
    → invoke_job max_workers id
        (store_job libs config r func_module_str data_strs w).0.total_calls
        (store_job libs config r func_module_str data_strs w).0.chunksize
        v
      ≡ some v'
    → (now later : List (List ℕ)) × (v'.submitted ≡ v.submitted ++ to_tasks id now)
      × (v'.pending_calls_q ≡ v.pending_calls_q ++ queued (to_tasks id later))
      × (workers_data
            (worker_data get_data (store_job libs config r func_module_str data_strs w).0)
            (now ++ later)
          ≡ some data_strs)
unfolding invoke_job ready
invoke_job-data libs config r func_module_str data_strs w get_data max_workers id v full answers one
      p e =
    let job = (store_job libs config r func_module_str data_strs w).0 in
    let (now, later, submitted, pending, whole, within) =
      distribute_lem max_workers id job.total_calls job.chunksize (ready v) p e in
    let (same_submitted, same_pending) = ready_same v in
    let total = total_calls_lem libs config r func_module_str data_strs w ∙ one in
    let loads = λ (i n : ℕ) (some_calls : 0 < n) (le : i + n ≤ length data_strs).
      worker_data_lem libs config r func_module_str data_strs w get_data i n full answers some_calls
        le in
    let loaded =
      workers_data-flatten (worker_data get_data job) data_strs loads (now ++ later) job.chunksize 0
        (length data_strs) within (whole ∙ ap (range_from 0) total) (omega arith) in
    (
      now,
      later,
      submitted ∙ ap (λ l. l ++ to_tasks id now) same_submitted,
      pending ∙ ap (λ l. l ++ queued (to_tasks id later)) same_pending,
      loaded ∙ ap some (take_all (length data_strs) data_strs (omega arith)),
    )

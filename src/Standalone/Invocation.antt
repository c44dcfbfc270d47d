-- ===== src/Standalone/Invocation.antt =====
-- `invoke` of lithops/standalone/standalone.py. A virtual machine is a number, the identity of its
-- object: `next` is that of the next object. Whether the n-th machine can be created, how many free
-- workers the master reports and whether its service comes up are told from outside.
use lithops.Base.{
  ℕ, zero, suc, ◌+◌, ◌-◌, ◌/◌, ◌%◌, Bool, true, false, ◌||◌, Option, none, some, List, [], ◌∷◌,
  ◌++◌, Text, length, min, ◌==◌, ltb, if◌then◌else◌,
}

pub data ExecMode : Type 0 where
  consume : ExecMode
  create : ExecMode
  reuse : ExecMode

pub data WorkerProcesses : Type 0 where
  auto : WorkerProcesses
  processes : ℕ → WorkerProcesses

pub record Backend : Type 0 where
  pub master : ℕ
  pub workers : List ℕ
  pub next : ℕ

-- What a job's payload says here: the last field is added by `invoke`.
pub record JobRequest : Type 0 where
  pub job_key : Text
  pub total_calls : ℕ
  pub max_workers : ℕ
  pub worker_processes : WorkerProcesses
  pub worker_instances : List ℕ

-- `posted` are the payloads that the master was sent.
pub record Handler : Type 0 where
  pub backend : Backend
  pub jobs : List Text
  pub posted : List JobRequest

abbrev pub or_cpu_count : ℕ → WorkerProcesses → ℕ
or_cpu_count cpu_count auto = cpu_count
or_cpu_count cpu_count (processes n) = n

-- `none` is the ZeroDivisionError.
unfoldable pub required_workers : (max_workers total_calls wp : ℕ) → Option ℕ
required_workers max_workers total_calls zero = none
required_workers max_workers total_calls (suc n) =
    some (min max_workers (total_calls / suc n + (if ltb 0 (total_calls % suc n) then 1 else 0)))

-- The object is there in any case; one that is not created is not kept.
abbrev pub create_worker : (created : Bool) → Backend → Backend
create_worker created b = record b {
  workers = if created then b.workers ++ b.next ∷ [] else b.workers;
  next = suc b.next;
}

-- The pool's futures, whose exceptions are passed over.
unfoldable pub create_each : (ℕ → Bool) → (vm_n n : ℕ) → Backend → Backend
create_each created vm_n zero b = b
create_each created vm_n (suc n) b =
    create_each created (suc vm_n) n (create_worker (created vm_n) b)

abbrev pub present : ℕ → List ℕ → Bool
present x [] = false
present x (y ∷ ys) = (x == y) || present x ys

-- current_workers_new - current_workers_old
unfoldable pub without : List ℕ → List ℕ → List ℕ
without [] old = []
without (x ∷ xs) old = let rest = without xs old in if present x old then rest else x ∷ rest

-- `none` is the error of a pool of no threads.
unfoldable pub create_workers :
    (ℕ → Bool) → (workers_to_create : ℕ) → Backend → Option (List ℕ × Backend)
unfolding create_each without
create_workers created zero b = none
create_workers created (suc n) b =
    let b' = create_each created 0 (suc n) b in some (without b'.workers b.workers, b')

-- The new workers, how many there are in all, and the backend.
unfoldable pub find_workers :
    (ℕ → Bool) → (found : ℕ) → ExecMode → (required : ℕ) → Backend → Option (List ℕ × ℕ × Backend)
unfolding create_workers
find_workers created found consume required b = some (b.master ∷ [], 1, b)
find_workers created found create required b = elim (create_workers created required b) [
  | none ↦ none
  | some (ws, b') ↦ some (ws, length ws, b')
]
find_workers created found reuse required b =
    if ltb found required
    then elim (create_workers created (required - found) b) [
      | none ↦ none
      | some (ws, b') ↦ some (ws, found + length ws, b')
    ]
    else some ([], found, b)

-- What comes of the master: its service does not come up, or the request to run a job raises before
-- the master has it, or behind (no answer, one that is not JSON, an HTTP error), or does not raise.
pub data Answer : Type 0 where
  unready unsent unanswered accepted : Answer

-- The payload reaches the master.
abbrev pub send : JobRequest → (new_workers : List ℕ) → Handler → Handler
send job ws h = record h { posted = h.posted ++ (record job { worker_instances = ws }) ∷ [] }

-- A job is posted, unless there are no workers or the master does not come up.
unfoldable pub post_job :
    Answer → JobRequest → (new_workers : List ℕ) → (total_workers : ℕ) → Handler → Handler × Bool
post_job answer job ws total h =
    let sent = send job ws h in
    let outcome : Handler × Bool = elim answer [
      | unready ↦ (h, true)
      | unsent ↦ (h, true)
      | unanswered ↦ (sent, true)
      | accepted ↦ (record sent { jobs = h.jobs ++ job.job_key ∷ [] }, false)
    ] in
    if total == 0 then (h, true) else outcome

-- The job with its number of worker processes, and the workers that it needs.
unfoldable pub settle : (cpu_count : ℕ) → JobRequest → Option (ℕ × JobRequest)
unfolding required_workers
settle cpu_count job =
    let wp = or_cpu_count cpu_count job.worker_processes in
    elim (required_workers job.max_workers job.total_calls wp) [
      | none ↦ none
      | some required ↦ some (required, record job { worker_processes = processes wp })
    ]

-- In CONSUME mode the worker processes stay as they are, and no number is needed.
unfoldable pub prepare : ExecMode → (cpu_count : ℕ) → JobRequest → Option (ℕ × JobRequest)
prepare consume cpu_count job = some (0, job)
prepare create cpu_count job = settle cpu_count job
prepare reuse cpu_count job = settle cpu_count job

-- `true` is an exception; machines that were created before it stay.
unfoldable pub invoke :
    (cpu_count found : ℕ) (created : ℕ → Bool) (answer : Answer)
    → ExecMode
    → JobRequest
    → Handler
    → Handler × Bool
unfolding prepare find_workers post_job
invoke cpu_count found created answer mode job h = elim (prepare mode cpu_count job) [
  | none ↦ (h, true)
  | some (required, settled) ↦ elim (find_workers created found mode required h.backend) [
    | none ↦ (h, true)
    | some (ws, total, b') ↦ post_job answer settled ws total (record h { backend = b' })
  ]
]

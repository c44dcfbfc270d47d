-- ===== src/Invoker/Workers.antt =====
-- The count of the busy workers.
use native.Mathlib.Nat.{div-add-mod, mod-lt}
use lithops.Base.{
  ℕ, zero, suc, ◌+◌, ◌-◌, ◌*◌, ◌%◌, ◌<◌, ◌≤◌, ◌≡◌, ap, ◌∙◌, some, List, take, drop, length,
  length-append, length-map, length-take, arith, ltb, Bool-cases, Option-cases, inl, inr,
  ltb-false→le, leb, leb→le, leb-false→lt,
}
use lithops.Partition.Number.{IsCeil}
use lithops.Payload.{iterchunks}
use lithops.Payload.Pieces.{iterchunks-some}
use lithops.Invoker.Queue.{
  Invoker, range_from, to_task, to_tasks, drain_tokens, drain, ensure_running, workers_for,
  distribute, invoke_job,
}

pub workers_for-IsCeil : (ci cz : ℕ) → 0 < cz → IsCeil ci cz (workers_for ci cz)
unfolding workers_for
workers_for-IsCeil ci cz p =
    let low = mod-lt ci p in
    let whole = div-add-mod ci cz in
    elim (Bool-cases (ltb 0 (ci % cz))) [
      | inl odd ↦ rw odd (grind arith, grind arith)
      | inr even ↦ let z = ltb-false→le 0 (ci % cz) in rw even (grind arith, grind arith)
    ]

le_of_mul-lt : (m n cz : ℕ) → m * cz < suc n * cz → m ≤ n
le_of_mul-lt m n cz h = elim (Bool-cases (leb m n)) [
  | inl le ↦ leb→le m n le
  | inr gt ↦ let lt = leb-false→lt m n gt in absurd (grind arith)
]

ceil_le : (bytes cz m n : ℕ) → IsCeil bytes cz m → bytes ≤ n * cz → m ≤ n
ceil_le bytes cz m n (a, b) c = le_of_mul-lt m n cz (grind arith)

ceil_unique : (bytes cz m n : ℕ) → IsCeil bytes cz m → IsCeil bytes cz n → m ≡ n
ceil_unique bytes cz m n f g =
    let up = ceil_le bytes cz m n f g.0 in let down = ceil_le bytes cz n m g f.0 in omega arith

drain_tokens-le : (running tokens : ℕ) → (drain_tokens running tokens).0 ≤ running
unfolding drain_tokens
drain_tokens-le running zero = omega arith
drain_tokens-le zero (suc tokens) = omega arith
drain_tokens-le (suc running) (suc tokens) = omega (arith, drain_tokens-le running tokens)

-- The busy workers that `_invoke_job` counts on before it starts.
abbrev pub busy : Invoker → ℕ
busy v = (drain (ensure_running v)).running_workers

busy-le : (v : Invoker) → busy v ≤ v.running_workers
unfolding drain ensure_running
busy-le v = ground (
  arith,
  drain_tokens-le v.running_workers v.token_bucket_q,
  drain_tokens-le 0 (v.token_bucket_q + 2),
)

drain-submitted : (v : Invoker) → (drain (ensure_running v)).submitted ≡ v.submitted
unfolding drain ensure_running
drain-submitted v = ground arith

-- The calls that are started at once: a task for each worker, of the free ones.
direct_workers :
    (free cz job : ℕ) (ids : List ℕ) (now : List (List ℕ))
    → iterchunks (take (free * cz) ids) cz ≡ some now
    → 0 < cz
    → (length (to_tasks job now) ≡ workers_for (length (take (free * cz) ids)) cz)
      × (workers_for (length (take (free * cz) ids)) cz ≤ free)
direct_workers free cz job ids now e p =
    let n = length (take (free * cz) ids) in
    let ceil = workers_for-IsCeil n cz p in
    let (_, chunks) = iterchunks-some (take (free * cz) ids) cz e in
    (
      length-map (to_task job) now ∙ ceil_unique n cz (length now) (workers_for n cz) chunks ceil,
      ceil_le n cz (workers_for n cz) free ceil (omega (arith, length-take (free * cz) ids)),
    )

distribute_workers :
    (max_workers job total_calls chunksize : ℕ) (v : Invoker) {v' : Invoker}
    → 0 < chunksize
    → v.running_workers ≤ max_workers
    → distribute max_workers job total_calls chunksize v ≡ some v'
    → (v'.running_workers ≤ max_workers)
      × (length v'.submitted + v.running_workers ≡ length v.submitted + v'.running_workers)
unfolding distribute
distribute_workers max_workers job total_calls chunksize v {v'} p h e =
    let ids = range_from 0 total_calls in
    let free = max_workers - v.running_workers in
    elim (Bool-cases (ltb v.running_workers max_workers)) [
      | inl some_free ↦ elim (Option-cases (iterchunks (take (free * chunksize) ids) chunksize)) [
        | inl f ↦ (let e2 = rw (some_free, f) at e in cc)
        | inr (now, f) ↦ elim (Option-cases (iterchunks (drop (free * chunksize) ids) chunksize)) [
          | inl g ↦ (let e2 = rw (some_free, f, g) at e in cc)
          | inr (later, g) ↦
              let (tasks, within) = direct_workers free chunksize job ids now f p in
              (let e2 = rw (some_free, f, g) at e in
                ground (arith, length-append v.submitted (to_tasks job now)))
        ]
      ]
      | inr full ↦ elim (Option-cases (iterchunks ids chunksize)) [
        | inl f ↦ (let e2 = rw (full, f) at e in cc)
        | inr (later, f) ↦ (let e2 = rw (full, f) at e in ground arith)
      ]
    ]

-- If the busy workers are within the limit and the chunk size is not 0, a job is started on no
-- more workers than are free: the busy workers stay within the limit, and grow by one for each
-- task that is submitted at once, from what is left when the tokens are taken out.
pub invoke_job_workers :
    (max_workers job total_calls chunksize : ℕ) (v : Invoker) {v' : Invoker}
    → 0 < chunksize
    → v.running_workers ≤ max_workers
    → invoke_job max_workers job total_calls chunksize v ≡ some v'
    → (v'.running_workers ≤ max_workers)
      × (length v'.submitted + busy v ≡ length v.submitted + v'.running_workers)
unfolding invoke_job
invoke_job_workers max_workers job total_calls chunksize v p h e =
    let u = drain (ensure_running v) in
    let less = busy-le v in
    let (within, grown) =
      distribute_workers max_workers job total_calls chunksize u p (omega arith) e in
    (within, omega (arith, ap length (drain-submitted v)))

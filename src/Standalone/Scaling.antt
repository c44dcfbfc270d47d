-- ===== src/Standalone/Scaling.antt =====
-- How many machines a job is given.
use lithops.Base.{
  ℕ, zero, suc, ◌+◌, ◌-◌, ◌*◌, ◌<◌, ◌≤◌, ◌≡◌, ◌≢◌, refl, sym, ap, ◌∙◌, Bool, true, false,
  Bool-cases, Option-cases, ◌⊎◌, inl, inr, some, List, [], ◌∷◌, ◌++◌, append-nil, length, min, ◌==◌,
  ltb, ltb→lt, ltb-false→le, arith,
}
use lithops.Partition.Number.{IsCeil}
use lithops.Invoker.{workers_for}
use lithops.Invoker.Workers.{workers_for-IsCeil}
use lithops.Standalone.Invocation.{
  Answer, unready, unsent, unanswered, accepted, send, ExecMode, consume, create, reuse, processes,
  Backend, JobRequest, Handler, or_cpu_count, required_workers, find_workers, post_job, settle,
  prepare, invoke,
}
use lithops.Standalone.Machines.{AllBelow, create_workers-all}

-- The free workers that a mode takes into account.
abbrev pub already : ExecMode → (found : ℕ) → ℕ
already consume found = 0
already create found = 0
already reuse found = found

-- `total` workers of `wp` processes are enough for the calls, or as many as are allowed.
abbrev pub Suffices : (total wp total_calls max_workers : ℕ) → Type 0
Suffices total wp total_calls max_workers = (total_calls ≤ total * wp) ⊎ (max_workers ≤ total)

required_workers_lem :
    (max_workers total_calls wp : ℕ)
    → 0 < wp
    → (ceil : ℕ) × (required_workers max_workers total_calls wp ≡ some (min max_workers ceil))
      × IsCeil total_calls wp ceil
unfolding required_workers workers_for
required_workers_lem max_workers total_calls zero p = absurd (omega arith)
required_workers_lem max_workers total_calls (suc n) p =
    (workers_for total_calls (suc n), refl, workers_for-IsCeil total_calls (suc n) p)

find_workers-all :
    (created : ℕ → Bool) (found : ℕ) (mode : ExecMode) (required : ℕ) (b : Backend)
    → ((i : ℕ) → created i ≡ true)
    → AllBelow b.next b.workers
    → 0 < required
    → mode ≢ consume
    → (ws : List ℕ) × (b' : Backend) × (find_workers created found mode required b
        ≡ some (ws, already mode found + length ws, b'))
      × (b'.workers ≡ b.workers ++ ws)
      × (length ws ≡ required - already mode found)
unfolding find_workers
find_workers-all created found consume required b all below p other = absurd (other refl)
find_workers-all created found create required b all below p other =
    let (ws, b', made, grown, size) = create_workers-all created required b all below p in
    (
      ws,
      b',
      rw (made, find_workers) (ap (λ t. some (ws, t, b')) (omega arith)),
      grown,
      omega (arith, size),
    )
find_workers-all created found reuse required b all below p other =
    elim (Bool-cases (ltb found required)) [
      | inl few ↦
          let lt = ltb→lt found required few in
          let (ws, b', made, grown, size) =
            create_workers-all created (required - found) b all below (omega arith) in
          (ws, b', rw (few, made, find_workers) refl, grown, size)
      | inr enough ↦
          let le = ltb-false→le found required enough in
          (
            [],
            b,
            rw (enough, find_workers) (ap (λ t. some ([], t, b)) (omega arith)),
            sym (append-nil b.workers),
            omega arith,
          )
    ]

mul_le : (m n wp : ℕ) → m ≤ n → m * wp ≤ n * wp
mul_le m n wp le = grind arith

IsCeil-pos : (calls wp ceil : ℕ) → IsCeil calls wp ceil → 0 < calls → 0 < ceil
IsCeil-pos calls wp zero (reach, under) p = absurd (omega arith)
IsCeil-pos calls wp (suc n) c p = omega arith

-- No machine is new, or all of them stay within what is allowed and one fewer would not do.
abbrev pub NoMore : (new total wp total_calls max_workers : ℕ) → Type 0
NoMore new total wp total_calls max_workers =
    (new ≡ 0) ⊎ ((total ≤ max_workers) × (total * wp < total_calls + wp))

scaled :
    (found max_workers ceil calls wp new : ℕ)
    → IsCeil calls wp ceil
    → new ≡ min max_workers ceil - found
    → Suffices (found + new) wp calls max_workers × NoMore new (found + new) wp calls max_workers
scaled found max_workers ceil calls wp new (reach, under) e =
    let enough : Suffices (found + new) wp calls max_workers =
      elim (Bool-cases (ltb ceil max_workers)) [
        | inl lt ↦
            let few = ltb→lt ceil max_workers lt in
            let more = mul_le ceil (found + new) wp (omega (arith, e)) in inl (omega arith)
        | inr ge ↦ let most = ltb-false→le ceil max_workers ge in inr (omega (arith, e))
      ] in
    let no_more : NoMore new (found + new) wp calls max_workers = elim (Bool-cases (ltb 0 new)) [
      | inl lt ↦
          let some_new = ltb→lt 0 new lt in
          let less = mul_le (found + new) ceil wp (omega (arith, e)) in
          inr (omega (arith, e), omega arith)
      | inr ge ↦ let none_new = ltb-false→le 0 new ge in inl (omega arith)
    ] in
    (enough, no_more)

prepare-other :
    (mode : ExecMode) (cpu_count : ℕ) (job : JobRequest)
    → mode ≢ consume
    → prepare mode cpu_count job ≡ settle cpu_count job
unfolding prepare
prepare-other consume cpu_count job other = absurd (other refl)
prepare-other create cpu_count job other = refl
prepare-other reuse cpu_count job other = refl

post_job-some :
    (job : JobRequest) (ws : List ℕ) (total : ℕ) (h : Handler)
    → 0 < total
    → (h' : Handler) × (post_job accepted job ws total h ≡ (h', false))
      × (h'.jobs ≡ h.jobs ++ job.job_key ∷ [])
      × (h'.posted ≡ h.posted ++ (record job { worker_instances = ws }) ∷ [])
      × (h'.backend ≡ h.backend)
unfolding post_job
post_job-some job ws zero h p = absurd (omega arith)
post_job-some job ws (suc n) h p =
    let some_there : (suc n == 0) ≡ false = ground arith in
    let h' = record h {
      jobs = h.jobs ++ job.job_key ∷ [];
      posted = h.posted ++ (record job { worker_instances = ws }) ∷ [];
    } in
    (h', rw (some_there, post_job) refl, refl, refl, refl)

-- In the modes that may create machines, where each one is created and the master comes up, a job
-- with calls, for which some workers with some processes are allowed, is posted without an error:
-- with those machines that are new, which the backend keeps behind the old ones. With the free
-- workers that REUSE found, they have a process for each call or are as many as are allowed. Either
-- none is new, or all of them are no more than allowed and one fewer would not have a process for each.
pub invoke_scales :
    (cpu_count found : ℕ) (created : ℕ → Bool) (mode : ExecMode) (job : JobRequest) (h : Handler)
    → ((i : ℕ) → created i ≡ true)
    → AllBelow h.backend.next h.backend.workers
    → 0 < job.total_calls
    → 0 < job.max_workers
    → 0 < or_cpu_count cpu_count job.worker_processes
    → mode ≢ consume
    → let wp = or_cpu_count cpu_count job.worker_processes in
      (h' : Handler) × (ws : List ℕ) × (invoke cpu_count found created accepted mode job h
        ≡ (h', false))
      × (h'.jobs ≡ h.jobs ++ job.job_key ∷ [])
      × (h'.posted
          ≡ h.posted
            ++ (record job { worker_processes = processes wp; worker_instances = ws }) ∷ [])
      × (h'.backend.workers ≡ h.backend.workers ++ ws)
      × Suffices (already mode found + length ws) wp job.total_calls job.max_workers
      × NoMore (length ws) (already mode found + length ws) wp job.total_calls job.max_workers
unfolding invoke settle
invoke_scales cpu_count found created mode job h all below calls allowed p other =
    let wp = or_cpu_count cpu_count job.worker_processes in
    let settled = record job { worker_processes = processes wp } in
    let (ceil, needed, is_ceil) = required_workers_lem job.max_workers job.total_calls wp p in
    let pos_ceil = IsCeil-pos job.total_calls wp ceil is_ceil calls in
    let required = min job.max_workers ceil in
    let (ws, b', there, grown, size) =
      find_workers-all created found mode required h.backend all below (omega arith) other in
    let h1 = record h { backend = b' } in
    let (h', done, jobs, posted, kept) =
      post_job-some settled ws (already mode found + length ws) h1 (omega (arith, size)) in
    let ready : prepare mode cpu_count job ≡ some (required, settled) =
      prepare-other mode cpu_count job other ∙ rw (needed, settle) refl in
    let (enough, no_more) =
      scaled (already mode found) job.max_workers ceil job.total_calls wp (length ws) is_ceil
        size in
    (
      h',
      ws,
      rw (ready, there, invoke) done,
      jobs,
      posted,
      ap (λ (b : Backend). b.workers) kept ∙ grown,
      enough,
      no_more,
    )

-- The jobs are as they were, and the master was sent nothing, or this job by a request without a good
-- answer.
abbrev pub Unposted : Answer → JobRequest → Handler → Handler → Type 0
Unposted answer job h h' =
    (h'.jobs ≡ h.jobs)
    × ((h'.posted ≡ h.posted)
        ⊎ ((answer ≡ unanswered)
            × (sent : JobRequest) × (sent.job_key ≡ job.job_key)
            × (h'.posted ≡ h.posted ++ sent ∷ [])))

unposted : (answer : Answer) (job : JobRequest) (h h' : Handler) → h ≡ h' → Unposted answer job h h'
unposted answer job h h' e =
    (sym (ap (λ (x : Handler). x.jobs) e), inl (sym (ap (λ (x : Handler). x.posted) e)))

settle-job_key :
    (cpu_count : ℕ) (job : JobRequest) {required : ℕ} {settled : JobRequest}
    → settle cpu_count job ≡ some (required, settled)
    → settled.job_key ≡ job.job_key
unfolding settle
settle-job_key cpu_count job {required} {settled} e =
    let wp = or_cpu_count cpu_count job.worker_processes in
    elim (Option-cases (required_workers job.max_workers job.total_calls wp)) [
      | inl zero_division ↦ absurd (cc (rw (zero_division, settle) at e))
      | inr (n, there) ↦
          let same : record job { worker_processes = processes wp } ≡ settled =
            cc (rw (there, settle) at e) in
          sym (ap (λ (x : JobRequest). x.job_key) same)
    ]

prepare-job_key :
    (mode : ExecMode) (cpu_count : ℕ) (job : JobRequest) {required : ℕ} {settled : JobRequest}
    → prepare mode cpu_count job ≡ some (required, settled)
    → settled.job_key ≡ job.job_key
unfolding prepare
prepare-job_key consume cpu_count job {required} {settled} e =
    let same : job ≡ settled = cc in sym (ap (λ (x : JobRequest). x.job_key) same)
prepare-job_key create cpu_count job e = settle-job_key cpu_count job e
prepare-job_key reuse cpu_count job e = settle-job_key cpu_count job e

post_job-raised :
    (answer : Answer) (job : JobRequest) (ws : List ℕ) (total : ℕ) (h : Handler) {h' : Handler}
    → post_job answer job ws total h ≡ (h', true)
    → Unposted answer job h h'
unfolding post_job
post_job-raised answer job ws zero h {h'} e = unposted answer job h h' (ap (λ r. r.0) e)
post_job-raised unready job ws (suc n) h {h'} e = unposted unready job h h' (ground arith)
post_job-raised unsent job ws (suc n) h {h'} e = unposted unsent job h h' (ground arith)
post_job-raised accepted job ws (suc n) h {h'} e = absurd (ground arith)
post_job-raised unanswered job ws (suc n) h {h'} e =
    let same : send job ws h ≡ h' = ground arith in
    (
      sym (ap (λ (x : Handler). x.jobs) same),
      inr (
        refl,
        record job { worker_instances = ws },
        refl,
        sym (ap (λ (x : Handler). x.posted) same),
      ),
    )

-- An exception leaves the jobs as they were. The master was sent nothing, or, where the request to
-- run the job raised behind it, one payload, of this job.
pub invoke-raised :
    (cpu_count found : ℕ) (created : ℕ → Bool) (answer : Answer) (mode : ExecMode)
    (job : JobRequest) (h : Handler) {h' : Handler}
    → invoke cpu_count found created answer mode job h ≡ (h', true)
    → Unposted answer job h h'
unfolding invoke
invoke-raised cpu_count found created answer mode job h {h'} e =
    elim (Option-cases (prepare mode cpu_count job)) [
      | inl zero_division ↦ unposted answer job h h' (cc (rw (zero_division, invoke) at e))
      | inr ((required, settled), ready) ↦
          elim (Option-cases (find_workers created found mode required h.backend)) [
            | inl no_pool ↦ unposted answer job h h' (cc (rw (ready, no_pool, invoke) at e))
            | inr ((ws, total, b'), there) ↦
                let (jobs, sent) =
                  post_job-raised answer settled ws total (record h { backend = b' })
                    (rw (ready, there, invoke) at e) in
                (
                  jobs,
                  elim sent [
                    | inl nothing ↦ inl nothing
                    | inr (lost, one, key, posted) ↦
                        inr (lost, one, key ∙ prepare-job_key mode cpu_count job ready, posted)
                  ],
                )
          ]
    ]

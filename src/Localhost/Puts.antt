-- ===== src/Localhost/Puts.antt =====
-- What run_job puts in the queue.
use lithops.Base.{
  ℕ, ◌+◌, ◌≡◌, refl, sym, subst, Bool, false, Bool-cases, Option-cases, inl, inr, Option, none,
  some, List, [], ◌∷◌, Text, length, count_if, count_if-append, get_elem?, ◌==◌, if◌then◌else◌, ℤ,
  negsuc, suc, pos, arith,
}
use lithops.Executor.{int}
use lithops.Payload.{Last}
use lithops.Invoker.{JobPayload}
use lithops.Localhost.Work.{Task, Environment, set_job, put_task, put_tasks, run_job}

abbrev pub of_task : (Task → Bool) → Option Task → Bool
of_task p none = false
of_task p (some t) = p t

abbrev pub queued : (Task → Bool) → Environment → ℕ
queued p env = count_if (of_task p) env.work_queue

abbrev pub mine : ℕ → Task → Bool
mine key t = t.job_key == key

-- The tasks of a job that have not run yet.
abbrev pub left : ℕ → Environment → ℕ
left key env = queued (mine key) env + count_if (mine key) env.in_hand

-- The tasks of a job that have not run, and the times that `clear` unlocked its latch.
abbrev pub missed : ℕ → Environment → ℕ
missed key env = left key env + count_if (mine key) env.dropped

abbrev pub forced_of : ℕ → Environment → ℕ
forced_of key env = count_if (λ k. k == key) env.forced

-- What a latch tells: its count and the times it was forced are the tasks that have not run.
abbrev pub Told : Option ℤ → (times tasks : ℕ) → Type 0
Told none f r = (f ≡ 0) × (r ≡ 0)
Told (some (pos a)) f r = a + f ≡ r
Told (some (negsuc a)) f r = f ≡ r + suc a

-- What run_job's loop does and leaves alone.
pub record Queued (env env' : Environment) (key n : ℕ) : Type 0 where
  pub jobs : env'.jobs ≡ env.jobs
  pub in_hand : env'.in_hand ≡ env.in_hand
  pub ran : env'.ran ≡ env.ran
  pub dropped : env'.dropped ≡ env.dropped
  pub forced : env'.forced ≡ env.forced
  pub asked :
      (p : Task → Bool)
      → queued p env' + count_if p env.asked ≡ queued p env + count_if p env'.asked
  pub more : (k : ℕ) → queued (mine k) env' ≡ queued (mine k) env + (if key == k then n else 0)

one_mine : (k : ℕ) (t : Task) → count_if (mine k) (t ∷ []) ≡ (if t.job_key == k then 1 else 0)
one_mine k t = ground arith

queued-put_task :
    (p : Task → Bool) (t : Task) (env : Environment)
    → queued p (put_task t env) ≡ queued p env + count_if p (t ∷ [])
queued-put_task p t env = count_if-append (of_task p) env.work_queue (some t ∷ [])

Queued-none : (env : Environment) (key : ℕ) → Queued env env key 0
Queued-none env key = record {
  jobs = refl;
  in_hand = refl;
  ran = refl;
  dropped = refl;
  forced = refl;
  asked = λ p. refl;
  more = λ k. ground arith;
}

put_tasks_lem :
    (key : ℕ) (dbr : List (ℕ × Last)) (ids : List Text) (env : Environment) {env' : Environment}
    → put_tasks key dbr ids env ≡ (env', false)
    → Queued env env' key (length ids)
unfolding put_tasks
put_tasks_lem key dbr [] env {env'} e =
    let same : env ≡ env' = cc in subst (λ x. Queued env x key 0) same (Queued-none env key)
put_tasks_lem key dbr (id ∷ ids) env {env'} e = elim (Option-cases (get_elem? dbr (int id))) [
  | inl out ↦ absurd (cc (rw (out, put_tasks) at e))
  | inr (r, there) ↦
      let t : Task = record { job_key = key; call_id = id; data_byte_range = r } in
      let rest = put_tasks_lem key dbr ids (put_task t env) (rw (there, put_tasks) at e) in
      record {
        jobs = rest.jobs;
        in_hand = rest.in_hand;
        ran = rest.ran;
        dropped = rest.dropped;
        forced = rest.forced;
        asked = λ p.
            omega
              (arith, rest.asked p, count_if-append p env.asked (t ∷ []), queued-put_task p t env);
        more = λ k. ground (arith, rest.more k, queued-put_task (mine k) t env, one_mine k t);
      }
]

pub run_job_lem :
    (key : ℕ) (payload : JobPayload) (env : Environment) {env' : Environment}
    → run_job key payload env ≡ (env', false)
    → (n : ℕ) × Queued (record env { jobs = set_job key (pos n) env.jobs }) env' key n
unfolding run_job
run_job_lem key payload env {env'} e = elim (Option-cases payload.call_ids) [
  | inl none_there ↦ absurd (cc (rw (none_there, run_job) at e))
  | inr (ids, there) ↦ elim (Option-cases payload.data_byte_ranges) [
    | inl no_data ↦ elim (Bool-cases (length ids == 0)) [
      | inl empty ↦
          let latched = record env { jobs = set_job key (pos (length ids)) env.jobs } in
          let zero_calls : length ids ≡ 0 = ground arith in
          let same : latched ≡ env' = cc (rw (there, run_job, no_data, empty) at e) in
          (
            length ids,
            subst (λ x. Queued latched x key (length ids)) same
                (subst (Queued latched latched key) (sym zero_calls) (Queued-none latched key)),
          )
      | inr some_calls ↦ absurd (cc (rw (there, run_job, no_data, some_calls) at e))
    ]
    | inr (dbr, ranges) ↦
        (length ids, put_tasks_lem key dbr ids _ (rw (there, run_job, ranges) at e))
  ]
]

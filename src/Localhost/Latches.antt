-- ===== src/Localhost/Latches.antt =====
-- What the latch of a job tells of its tasks.
use lithops.Base.{
  ℕ, zero, suc, ◌+◌, ◌≤◌, ◌≡◌, refl, sym, subst, ap, ◌∙◌, Bool, true, false, ◌&&◌, Bool-cases,
  Option-cases, inl, inr, Option, none, some, List, [], ◌∷◌, ◌++◌, count_if, count_if-append, ◌==◌,
  ℤ, pos, negsuc, pred_ℤ, arith,
}
use lithops.Localhost.Work.{
  unlock, waits, Task, Environment, set_job, unlock_job, EnvStep, job_put, task_taken, task_ran,
  consumer_ended, stopped, stop, drop_one, dropped_one, forced_one, EnvReach, at_start, then_step,
  new_environment,
}
use lithops.Localhost.Puts.{of_task, queued, mine, missed, forced_of, Told, Queued, run_job_lem}

-- The latch of each job tells what is left of it, and what was asked is queued, in hand, was dropped
-- or has run.
record IsKept (env : Environment) : Type 0 where
  counted : (key : ℕ) → Told (env.jobs key) (forced_of key env) (missed key env)
  kept :
      (p : Task → Bool)
      → count_if p env.asked
        ≡ queued p env + count_if p env.in_hand + count_if p env.ran + count_if p env.dropped

-- The same latch, times and tasks.
Told-same :
    {o o' : Option ℤ} {f f' r r' : ℕ} → o ≡ o' → f ≡ f' → r ≡ r' → Told o f r → Told o' f' r'
Told-same {o} {o'} {f} {f'} {r} {r'} e g h t =
    subst (λ x. Told x f' r') e (subst (λ x. Told o x r') g (subst (Told o f) h t))

-- One task fewer, and one unlocking more.
Told-ran : (c : ℤ) (f r : ℕ) → Told (some c) f (suc r) → Told (some (pred_ℤ c)) f r
Told-ran (pos zero) f r t = omega arith
Told-ran (pos (suc a)) f r t = omega arith
Told-ran (negsuc a) f r t = omega arith

Told-forced : (c : ℤ) (f r : ℕ) → Told (some c) f r → Told (some (pred_ℤ c)) (suc f) r
Told-forced (pos zero) f r t = omega arith
Told-forced (pos (suc a)) f r t = omega arith
Told-forced (negsuc a) f r t = omega arith

count_if-cons :
    {A : Type 0} (p : A → Bool) (x : A) (xs : List A)
    → count_if p (x ∷ xs) ≡ count_if p (x ∷ []) + count_if p xs
count_if-cons p x xs = count_if-append p (x ∷ []) xs

count_if-middle :
    (p : Task → Bool) (before after : List Task) (t : Task) {xs : List Task}
    → xs ≡ before ++ t ∷ after
    → count_if p xs ≡ count_if p (t ∷ []) + count_if p (before ++ after)
count_if-middle p before after t e =
    ap (count_if p) e
    ∙ omega (
      arith,
      count_if-append p before (t ∷ after),
      count_if-cons p t after,
      count_if-append p before after,
    )

module _ (env : Environment) (safe : IsKept env) where
  IsKept-put :
      (key n : ℕ) (env' : Environment)
      → env.jobs key ≡ none
      → Queued (record env { jobs = set_job key (pos n) env.jobs }) env' key n
      → IsKept env'
  IsKept-put key n env' new put = record {
    counted = λ k.
        let job = ap (λ (f : ℕ → Option ℤ). f k) put.jobs in
        let held = ap (count_if (mine k)) put.in_hand in
        let out = ap (count_if (mine k)) put.dropped in
        let times : forced_of k env ≡ forced_of k env' =
          sym (ap (count_if (λ j. j == k)) put.forced) in
        elim (Bool-cases (k == key)) [
          | inl e ↦
              let same : k ≡ key = ground arith in
              let turned : (key == k) ≡ true = ground arith in
              let more = rw turned at (put.more k) in
              let before : Told none (forced_of k env) (missed k env) =
                Told-same (ap env.jobs same ∙ new) refl refl (safe.counted k) in
              let told : Told (some (pos n)) (forced_of k env') (missed k env') =
                omega (arith, before.0, before.1, more, held, out, times) in
              Told-same (sym (rw e at job)) refl refl told
          | inr e ↦
              let turned : (key == k) ≡ false = ground arith in
              let more = rw turned at (put.more k) in
              Told-same (sym (rw e at job)) times (omega (arith, more, held, out)) (safe.counted k)
        ];
    kept = λ p.
        let held = ap (count_if p) put.in_hand in
        let gone = ap (count_if p) put.ran in
        let out = ap (count_if p) put.dropped in
        omega (arith, put.asked p, safe.kept p, held, gone, out);
  }

  IsKept-taken :
      (t : Task) (rest : List (Option Task))
      → env.work_queue ≡ some t ∷ rest
      → IsKept (record env { work_queue = rest; in_hand = t ∷ env.in_hand })
  IsKept-taken t rest e =
      let moved = λ (p : Task → Bool).
        ap (count_if (of_task p)) e ∙ count_if-cons (of_task p) (some t) rest in
      record {
        counted = λ k.
            Told-same refl refl
              (omega (arith, moved (mine k), count_if-cons (mine k) t env.in_hand))
              (safe.counted k);
        kept = λ p. omega (arith, safe.kept p, moved p, count_if-cons p t env.in_hand);
      }

  IsKept-dropped :
      (event : Option Task) (rest : List (Option Task))
      → env.work_queue ≡ event ∷ rest
      → IsKept (drop_one event rest env)
  IsKept-dropped none rest e =
      let same = λ (p : Task → Bool). ap (count_if (of_task p)) e in
      record {
        counted = λ k. Told-same refl refl (omega (arith, same (mine k))) (safe.counted k);
        kept = λ p. omega (arith, safe.kept p, same p);
      }
  IsKept-dropped (some t) rest e =
      let moved = λ (p : Task → Bool).
        ap (count_if (of_task p)) e ∙ count_if-cons (of_task p) (some t) rest in
      record {
        counted = λ k.
            Told-same refl refl
              (omega (arith, moved (mine k), count_if-cons (mine k) t env.dropped))
              (safe.counted k);
        kept = λ p. omega (arith, safe.kept p, moved p, count_if-cons p t env.dropped);
      }

  IsKept-ran :
      (before after : List Task) (t : Task)
      → env.in_hand ≡ before ++ t ∷ after
      → IsKept (record (unlock_job t.job_key env) { in_hand = before ++ after; ran = t ∷ env.ran })
  unfolding unlock_job unlock
  IsKept-ran before after t one =
      let taken = λ (p : Task → Bool). count_if-middle p before after t one in
      let own : count_if (mine t.job_key) (t ∷ []) ≡ 1 = ground arith in
      elim (Option-cases (env.jobs t.job_key)) [
        | inl e ↦
            let nothing : Told none (forced_of t.job_key env) (missed t.job_key env) =
              Told-same e refl refl (safe.counted t.job_key) in
            absurd (omega (arith, nothing.1, taken (mine t.job_key), own))
        | inr (c, e) ↦
            rw (e, unlock_job)
              (record {
                counted = λ k.
                    let m =
                      queued (mine k) env
                      + count_if (mine k) (before ++ after)
                      + count_if (mine k) env.dropped in
                    elim (Bool-cases (k == t.job_key)) [
                      | inl same_key ↦
                          let same : k ≡ t.job_key = ground arith in
                          let own_k : count_if (mine k) (t ∷ []) ≡ 1 = ground arith in
                          let fewer : missed k env ≡ suc m = omega (arith, own_k, taken (mine k)) in
                          let told : Told (some c) (forced_of k env) (suc m) =
                            Told-same (ap env.jobs same ∙ e) refl fewer (safe.counted k) in
                          rw same_key (Told-ran c (forced_of k env) m told)
                      | inr other ↦
                          let none_of_it : count_if (mine k) (t ∷ []) ≡ 0 = ground arith in
                          rw other (
                            Told-same refl refl (omega (arith, none_of_it, taken (mine k)))
                              (safe.counted k))
                    ];
                kept = λ p. omega (arith, safe.kept p, taken p, count_if-cons p t env.ran);
              })
      ]

  IsKept-forced :
      (key : ℕ) (count : ℤ)
      → env.jobs key ≡ some count
      → IsKept (record (unlock_job key env) { forced = key ∷ env.forced })
  unfolding unlock_job unlock
  IsKept-forced key count e =
      rw (e, unlock_job)
        (record {
          counted = λ k. elim (Bool-cases (k == key)) [
            | inl same_key ↦
                let same : k ≡ key = ground arith in
                let once_more : suc (forced_of k env) ≡ count_if (λ j. j == k) (key ∷ env.forced) =
                  ground arith in
                let told : Told (some count) (forced_of k env) (missed k env) =
                  Told-same (ap env.jobs same ∙ e) refl refl (safe.counted k) in
                rw same_key (
                  Told-same {o = some (pred_ℤ count)} {r = missed k env} refl once_more refl
                    (Told-forced count (forced_of k env) (missed k env) told))
            | inr other ↦
                let no_more : forced_of k env ≡ count_if (λ j. j == k) (key ∷ env.forced) =
                  ground arith in
                rw other (Told-same refl no_more refl (safe.counted k))
          ];
          kept = λ p. safe.kept p;
        })

IsKept-stop : (n : ℕ) (env : Environment) → IsKept env → IsKept (stop n env)
unfolding stop
IsKept-stop zero env safe = safe
IsKept-stop (suc n) env safe =
    let same = λ (p : Task → Bool). count_if-append (of_task p) env.work_queue (none ∷ []) in
    IsKept-stop n (record env { work_queue = env.work_queue ++ none ∷ [] })
      (record {
        counted = λ k. Told-same refl refl (omega (arith, same (mine k))) (safe.counted k);
        kept = λ p. omega (arith, safe.kept p, same p);
      })

IsKept-EnvStep : {env env' : Environment} → IsKept env → EnvStep env env' → IsKept env'
IsKept-EnvStep safe (job_put env key payload env' new e) =
    let (n, put) = run_job_lem key payload env e in IsKept-put env safe key n env' new put
IsKept-EnvStep safe (task_taken env t rest e) = IsKept-taken env safe t rest e
IsKept-EnvStep safe (task_ran env before after t e) = IsKept-ran env safe before after t e
IsKept-EnvStep safe (consumer_ended env rest e) = IsKept-dropped env safe none rest e
IsKept-EnvStep safe (stopped env n) = IsKept-stop n env safe
IsKept-EnvStep safe (dropped_one env event rest e) = IsKept-dropped env safe event rest e
IsKept-EnvStep safe (forced_one env key count e undone) = IsKept-forced env safe key count e

IsKept-EnvReach : {env : Environment} → EnvReach new_environment env → IsKept env
unfolding new_environment
IsKept-EnvReach at_start = record { counted = λ k. (refl, refl); kept = λ p. omega arith }
IsKept-EnvReach (then_step r step) = IsKept-EnvStep (IsKept-EnvReach r) step

fewer_held :
    (key : ℕ) (p : Task → Bool) (ts : List Task)
    → count_if (λ t. mine key t && p t) ts ≤ count_if (mine key) ts
fewer_held key p [] = omega arith
fewer_held key p (t ∷ ts) = ground (arith, fewer_held key p ts)

fewer_queued :
    (key : ℕ) (p : Task → Bool) (os : List (Option Task))
    → count_if (of_task (λ t. mine key t && p t)) os ≤ count_if (of_task (mine key)) os
fewer_queued key p [] = omega arith
fewer_queued key p (none ∷ os) = fewer_queued key p os
fewer_queued key p (some t ∷ os) = ground (arith, fewer_queued key p os)

over_lem : (c : ℤ) (f r : ℕ) → waits c ≡ false → Told (some c) f r → r ≤ f
over_lem (pos zero) f r e t = omega arith
over_lem (pos (suc a)) f r e t = cc
over_lem (negsuc a) f r e t = omega arith

-- Jobs come under new keys, without an error, the consumers take and run tasks, and `clear` drops
-- tasks, stops the environment and unlocks latches that are not done, in any order. Where the latch of
-- a job no longer makes the manager wait, no more of the job's tasks are queued, being run or dropped
-- than `clear` has unlocked its latch times. So any test accepts at most as many of those that ran as
-- of those that were asked for, and at most so many fewer: without `clear`, exactly as many.
pub job_done-ran :
    (key : ℕ) (p : Task → Bool) {env : Environment} {count : ℤ}
    → EnvReach new_environment env
    → env.jobs key ≡ some count
    → waits count ≡ false
    → let mine_too = λ (t : Task). mine key t && p t in
      (missed key env ≤ forced_of key env)
      × (count_if mine_too env.ran ≤ count_if mine_too env.asked)
      × (count_if mine_too env.asked ≤ count_if mine_too env.ran + forced_of key env)
job_done-ran key p {env} {count} r e over =
    let safe = IsKept-EnvReach r in
    let told : Told (some count) (forced_of key env) (missed key env) =
      Told-same e refl refl (safe.counted key) in
    let few = over_lem count (forced_of key env) (missed key env) over told in
    let both = λ (t : Task). mine key t && p t in
    let no_queued = fewer_queued key p env.work_queue in
    let no_held = fewer_held key p env.in_hand in
    let no_dropped = fewer_held key p env.dropped in
    let all = safe.kept both in
    (few, omega (arith, all), omega (arith, all, few, no_queued, no_held, no_dropped))

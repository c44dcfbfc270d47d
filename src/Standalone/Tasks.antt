-- ===== src/Standalone/Tasks.antt =====
-- What a cancelled job leaves in its queue.
use lithops.Base.{
  ℕ, zero, suc, ◌<◌, ◌≡◌, refl, ap, sym, ◌∙◌, true, false, not, some, List, [], ◌∷◌, ◌++◌, length,
  length-append, keep, append_assoc, append-nil, ◌==◌, if◌then◌else◌, Bool-cases, inl, inr, ◌⊎◌,
  arith,
}
use lithops.Redis.{Redis, IsRedis, last, front}
use lithops.Standalone.Master.{
  Server, JobData, JobStatus, canceled, drain, push_back, cancel_job, set_job, is_finished,
}

-- A list after pushes at the left.
abbrev after_pushes : List ℕ → List ℕ → List ℕ
after_pushes [] xs = xs
after_pushes (t ∷ ts) xs = after_pushes ts (t ∷ xs)

after_pushes-append : (ts xs ys : List ℕ) → after_pushes ts (xs ++ ys) ≡ after_pushes ts xs ++ ys
after_pushes-append [] xs ys = refl
after_pushes-append (t ∷ ts) xs ys = after_pushes-append ts (t ∷ xs) ys

-- A list is empty or has a last element.
Snoc : List ℕ → Type 0
Snoc xs =
    (xs ≡ [])
    ⊎ ((y : ℕ) × (ys : List ℕ) × (xs ≡ ys ++ y ∷ []) × (last xs ≡ some y) × (front xs ≡ ys))

snoc : (xs : List ℕ) → Snoc xs
unfolding Snoc
snoc [] = inl refl
snoc (x ∷ []) = inr (x, [], refl, refl, refl)
snoc (x ∷ x' ∷ xs) = elim (snoc (x' ∷ xs)) [
  | inl e ↦ cc
  | inr (y, ys, e, l, f) ↦ inr (y, x ∷ ys, ap (λ r. x ∷ r) e, l, ap (λ r. x ∷ r) f)
]

module _ {S : Type 0} (redis : Redis S) (is : IsRedis redis) (job_of : ℕ → ℕ) (job_key q : ℕ) where
  abbrev others : List ℕ → List ℕ
  others xs = keep (λ t. not (job_of t == job_key)) xs

  keep-snoc :
      (y : ℕ) (ys : List ℕ)
      → others (ys ++ y ∷ []) ≡ (if job_of y == job_key then others ys else others ys ++ y ∷ [])
  keep-snoc y [] = ground arith
  keep-snoc y (x ∷ ys) = ground (arith, keep-snoc y ys)

  keep_ours :
      (y : ℕ) (ys : List ℕ) → (job_of y == job_key) ≡ true → others (ys ++ y ∷ []) ≡ others ys
  keep_ours y ys ours = ground (arith, keep-snoc y ys)

  keep_other :
      (y : ℕ) (ys : List ℕ)
      → (job_of y == job_key) ≡ false
      → others (ys ++ y ∷ []) ≡ others ys ++ y ∷ []
  keep_other y ys other = ground (arith, keep-snoc y ys)

  items-push_back :
      (ts : List ℕ) (s : S) → is.items q (push_back redis q ts s) ≡ after_pushes ts (is.items q s)
  unfolding push_back
  items-push_back [] s = refl
  items-push_back (t ∷ ts) s =
      items-push_back ts (redis.lpush q t s) ∙ ap (after_pushes ts) (is.lpush-items q t s)

  -- The queue is emptied, and the tasks of the others are at hand.
  drain_lem :
      (fuel : ℕ) (tmp_queue : List ℕ) (s : S)
      → length (is.items q s) < fuel
      → (rs : List ℕ) × (s' : S) × (drain redis fuel job_of job_key q tmp_queue s
          ≡ some (tmp_queue ++ rs, s'))
        × (is.items q s' ≡ [])
        × (after_pushes rs [] ≡ others (is.items q s))
  unfolding drain Snoc
  drain_lem zero tmp_queue s h = elim h [ ]
  drain_lem (suc fuel) tmp_queue s h =
      let n = is.llen-items q s in
      elim (snoc (is.items q s)) [
        | inl empty ↦
            let none_left : (redis.llen q s == 0) ≡ true = ground (arith, ap length empty, n) in
            (
              [],
              s,
              rw none_left (ap (λ r. some (r, s)) (sym (append-nil tmp_queue))),
              empty,
              sym (ap others empty),
            )
        | inr (y, ys, e, l, f) ↦
            let size = ap length e ∙ length-append ys (y ∷ []) in
            let some_left : (redis.llen q s == 0) ≡ false = ground (arith, size, n) in
            let popped = is.rpop-last q s ∙ l in
            let left = is.rpop-items q s ∙ f in
            let fewer : length (is.items q (redis.rpop q s).1) < fuel =
              omega (arith, size, ap length left) in
            elim (Bool-cases (job_of y == job_key)) [
              | inl ours ↦
                  let (rs, s', drained, empty, same) =
                    drain_lem fuel tmp_queue (redis.rpop q s).1 fewer in
                  (
                    rs,
                    s',
                    rw (drain, some_left, popped, ours) drained,
                    empty,
                    same ∙ ap others left ∙ sym (ap others e ∙ keep_ours y ys ours),
                  )
              | inr other ↦
                  let (rs, s', drained, empty, same) =
                    drain_lem fuel (tmp_queue ++ y ∷ []) (redis.rpop q s).1 fewer in
                  (
                    y ∷ rs,
                    s',
                    rw (drain, some_left, popped, other)
                        (drained ∙ ap (λ r. some (r, s')) (append_assoc tmp_queue (y ∷ []) rs)),
                    empty,
                    after_pushes-append rs [] (y ∷ [])
                        ∙ ap (λ r. r ++ y ∷ []) (same ∙ ap others left)
                        ∙ sym (ap others e ∙ keep_other y ys other),
                  )
            ]
      ]

module _ {S : Type 0} (redis : Redis S) (is : IsRedis redis) (job_of : ℕ → ℕ) (job_key : ℕ) where
  -- What the status of a job is then.
  abbrev pub cancelled_status : (workers : ℕ) → JobStatus → JobStatus
  cancelled_status workers status =
      if workers == 0 then status else (if is_finished status then status else canceled)

  -- With more fuel than there are tasks in its queue, on a server whose commands do as documented,
  -- a known job is cancelled: its queue then holds exactly the tasks of the other jobs, in order.
  -- If there are workers, the job is canceled unless it was done; if there is none, an exception is
  -- raised and its status stays.
  pub cancel_job-others :
      (fuel workers : ℕ) (server : Server S) (d : JobData)
      → server.jobs job_key ≡ some d
      → length (is.items d.queue_name server.client) < fuel
      → (server' : Server S) × (cancel_job redis fuel job_of workers job_key server
          ≡ some (server', workers == 0))
        × (is.items d.queue_name server'.client
            ≡ keep (λ t. not (job_of t == job_key)) (is.items d.queue_name server.client))
        × (server'.jobs job_key ≡ some (record d { status = cancelled_status workers d.status }))
  unfolding cancel_job
  cancel_job-others fuel workers server d known enough =
      let q = d.queue_name in
      let (rs, s, drained, empty, same) =
        drain_lem redis is job_of job_key q fuel [] server.client enough in
      let left = record server { client = push_back redis q rs s } in
      let back : is.items q left.client
          ≡ others redis is job_of job_key q (is.items q server.client) =
        items-push_back redis is job_of job_key q rs s ∙ ap (after_pushes rs) empty ∙ same in
      let itself : (job_key == job_key) ≡ true = ground arith in
      elim (Bool-cases (workers == 0)) [
        | inl none_there ↦ (
          left,
          rw (cancel_job, known, drained, none_there) refl,
          back,
          known ∙ rw none_there refl,
        )
        | inr some_there ↦ elim (Bool-cases (is_finished d.status)) [
          | inl over ↦ (
            left,
            rw (cancel_job, known, drained, some_there, over) refl,
            back,
            known ∙ rw (some_there, over) refl,
          )
          | inr on ↦ (
            set_job job_key (some (record d { status = canceled })) left,
            rw (cancel_job, known, drained, some_there, on) refl,
            back,
            rw (some_there, on, itself) refl,
          )
        ]
      ]

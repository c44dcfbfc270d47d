-- ===== src/Monitor/Counts.antt =====
-- How many tokens there are, and for whom.
use lithops.Base.{
  ◌<◌, leb, count_if-append, subst, ℕ, ◌+◌, ◌≤◌, ◌≡◌, refl, ap, sym, ◌∙◌, true, false, ◌||◌, List,
  [], ◌∷◌, ◌++◌, length, length-append, ◌==◌, if◌then◌else◌, count_if, Bool-cases, inl, inr, arith,
}
use lithops.Monitor.Tokens.{
  Call, Workers, calls_of, add_call, Monitor, mark_done, Ended, generate_token, generate_each,
  has_id,
}

-- No worker twice.
abbrev pub AllOnce : List ℕ → Type 0
AllOnce ws = (w : ℕ) → count_if (λ v. w == v) ws ≤ 1

-- One token was made for each worker that is done.
abbrev pub Counted : ℕ → Monitor → Type 0
Counted before m = (m.token_bucket_q ≡ before + length m.workers_done) × AllOnce m.workers_done

has_id-count : (w : ℕ) (ws : List ℕ) → has_id w ws ≡ false → count_if (λ v. w == v) ws ≡ 0
has_id-count w [] h = refl
has_id-count w (v ∷ ws) h = ground (arith, has_id-count w ws)

AllOnce-append : (ws : List ℕ) (w : ℕ) → has_id w ws ≡ false → AllOnce ws → AllOnce (ws ++ w ∷ [])
AllOnce-append ws w h once v =
    let absent = has_id-count w ws h in
    let more = count_if-append (λ u. v == u) ws (w ∷ []) in
    elim (Bool-cases (v == w)) [
      | inl same ↦
          let e : v ≡ w = ground arith in
          let gone : count_if (λ u. v == u) ws ≡ 0 =
            subst (λ x. count_if (λ u. x == u) ws ≡ 0) (sym e) absent in
          ground arith
      | inr other ↦ ground (arith, once v)
    ]

pub mark_done-Counted :
    (before worker chunksize : ℕ) (m : Monitor)
    → m.should_run ≡ true
    → Counted before m
    → Counted before (mark_done worker chunksize m)
unfolding mark_done
mark_done-Counted before worker chunksize m run (sum, once) =
    let grown = length-append m.workers_done (worker ∷ []) in
    elim (Bool-cases (has_id worker m.workers_done)) [
      | inl old ↦ rw old (sum, once)
      | inr new ↦ elim (Bool-cases (length (calls_of worker m.callids_done_worker) == chunksize)) [
        | inl full ↦
            rw (new, full, run) (omega arith, AllOnce-append m.workers_done worker new once)
        | inr short ↦ rw (new, short) (sum, once)
      ]
    ]

-- The monitor with the call of a status noted.
abbrev noted : Ended → Monitor → Monitor
noted status m = record m {
  callids_done_worker = add_call status.activation_id status.call m.callids_done_worker;
}

generate_token_on :
    (status : Ended) (m : Monitor)
    → m.should_run ≡ true
    → m.generate_tokens ≡ true
    → generate_token status m ≡ mark_done status.activation_id status.chunksize (noted status m)
unfolding generate_token
generate_token_on status m run on = ground arith

mark_done-calls :
    (worker chunksize : ℕ) (m : Monitor)
    → (mark_done worker chunksize m).callids_done_worker ≡ m.callids_done_worker
unfolding mark_done
mark_done-calls worker chunksize m = ground arith

generate_token_run :
    (status : Ended) (m : Monitor)
    → ((generate_token status m).should_run ≡ m.should_run)
      × ((generate_token status m).generate_tokens ≡ m.generate_tokens)
unfolding generate_token mark_done
generate_token_run status m = ground arith

generate_token-Counted :
    (before : ℕ) (status : Ended) (m : Monitor)
    → m.should_run ≡ true
    → m.generate_tokens ≡ true
    → Counted before m
    → Counted before (generate_token status m)
generate_token-Counted before status m run on counted =
    subst (Counted before) (sym (generate_token_on status m run on))
      (mark_done-Counted before status.activation_id status.chunksize (noted status m) run counted)

-- The statuses of a worker so far decide whether it is done.
abbrev Watched : ℕ → ℕ → Monitor → Type 0
Watched w n m = has_id w m.workers_done ≡ leb n (length (calls_of w m.callids_done_worker))

calls_of-add_call :
    (w v : ℕ) (call : Call) (d : Workers)
    → length (calls_of w (add_call v call d)) ≡ length (calls_of w d) + (if w == v then 1 else 0)
unfolding add_call
calls_of-add_call w v call [] = ground arith
calls_of-add_call w v call ((u, calls) ∷ rest) =
    ground (arith, calls_of-add_call w v call rest, length-append calls (call ∷ []))

has_id-append : (w v : ℕ) (ws : List ℕ) → has_id w (ws ++ v ∷ []) ≡ (has_id w ws || w == v)
has_id-append w v [] = ground arith
has_id-append w v (u ∷ ws) = ground (arith, has_id-append w v ws)

mark_done-Watched :
    (w n : ℕ) (status : Ended) (m : Monitor)
    → (status.activation_id ≡ w → status.chunksize ≡ n)
    → Watched w n m
    → Watched w n (mark_done status.activation_id status.chunksize (noted status m))
unfolding mark_done
mark_done-Watched w n status m fit watched =
    let one = calls_of-add_call w status.activation_id status.call m.callids_done_worker in
    let old = has_id-append w status.activation_id m.workers_done in
    elim (Bool-cases (w == status.activation_id)) [
      | inl same ↦
          let e : w ≡ status.activation_id = ground arith in
          let k = fit (sym e) in
          let seen : has_id w m.workers_done ≡ has_id status.activation_id m.workers_done =
            ap (λ x. has_id x m.workers_done) e in
          let calls = add_call status.activation_id status.call m.callids_done_worker in
          let same_calls : length (calls_of w calls)
              ≡ length (calls_of status.activation_id calls) =
            ap (λ x. length (calls_of x calls)) e in
          elim (Bool-cases (has_id status.activation_id m.workers_done)) [
            | inl there ↦ rw there (ground arith)
            | inr not_there ↦
                elim (Bool-cases
                  (length (calls_of status.activation_id calls) == status.chunksize)) [
                    | inl full ↦ rw (not_there, full) (ground arith)
                    | inr short ↦ rw (not_there, short) (ground arith)
                  ]
          ]
      | inr other ↦ elim (Bool-cases (has_id status.activation_id m.workers_done)) [
        | inl there ↦ rw there (ground arith)
        | inr not_there ↦ ground arith
      ]
    ]

generate_token-Watched :
    (w n : ℕ) (status : Ended) (m : Monitor)
    → m.should_run ≡ true
    → m.generate_tokens ≡ true
    → (status.activation_id ≡ w → status.chunksize ≡ n)
    → Watched w n m
    → Watched w n (generate_token status m)
generate_token-Watched w n status m run on fit watched =
    subst (Watched w n) (sym (generate_token_on status m run on))
      (mark_done-Watched w n status m fit watched)

-- A monitor at its start, with some tokens in the bucket.
abbrev pub started : ℕ → Monitor
started tokens = record {
  should_run = true;
  generate_tokens = true;
  token_bucket_q = tokens;
  workers_done = [];
  callids_done_worker = [];
}

-- The statuses of a worker all name the same chunk size.
abbrev pub AllChunks : ℕ → ℕ → List Ended → Type 0
AllChunks w n [] = Unit
AllChunks w n (s ∷ ss) = (s.activation_id ≡ w → s.chunksize ≡ n) × AllChunks w n ss

abbrev Running : Monitor → Type 0
Running m = (m.should_run ≡ true) × (m.generate_tokens ≡ true)

generate_token-calls :
    (w : ℕ) (s : Ended) (m : Monitor)
    → m.should_run ≡ true
    → m.generate_tokens ≡ true
    → length (calls_of w (generate_token s m).callids_done_worker)
      ≡ length (calls_of w m.callids_done_worker) + (if w == s.activation_id then 1 else 0)
generate_token-calls w s m run on =
    ap (λ x. length (calls_of w x.callids_done_worker)) (generate_token_on s m run on)
    ∙ ap (λ x. length (calls_of w x)) (mark_done-calls s.activation_id s.chunksize (noted s m))
    ∙ calls_of-add_call w s.activation_id s.call m.callids_done_worker

generate_each_lem :
    (before w n : ℕ) (statuses : List Ended) (m : Monitor)
    → Running m
    → AllChunks w n statuses
    → Counted before m
    → Watched w n m
    → let m' = generate_each statuses m in
      Counted before m'
      × Watched w n m'
      × (length (calls_of w m'.callids_done_worker)
          ≡ length (calls_of w m.callids_done_worker)
            + count_if (λ s. w == s.activation_id) statuses)
generate_each_lem before w n [] m run fit counted watched = (counted, watched, omega arith)
generate_each_lem before w n (s ∷ ss) m (run, on) (f, fit) counted watched =
    let m' = generate_token s m in
    let (run', on') = generate_token_run s m in
    let (c, d, count) =
      generate_each_lem before w n ss m' (run' ∙ run, on' ∙ on) fit
        (generate_token-Counted before s m run on counted)
        (generate_token-Watched w n s m run on f watched) in
    let here = generate_token-calls w s m run on in (c, d, ground arith)

-- From the start on, tokens are made for workers, one for each. A worker whose statuses all tell
-- the same chunk size, above 0, is among them exactly when at least as many of its statuses have
-- come.
pub generate_each_tokens :
    (tokens w n : ℕ) (statuses : List Ended)
    → 0 < n
    → AllChunks w n statuses
    → let m = generate_each statuses (started tokens) in
      (m.token_bucket_q ≡ tokens + length m.workers_done)
      × AllOnce m.workers_done
      × (has_id w m.workers_done ≡ leb n (count_if (λ s. w == s.activation_id) statuses))
generate_each_tokens tokens w n statuses p fit =
    let ((sum, once), watched, count) =
      generate_each_lem tokens w n statuses (started tokens) (refl, refl) fit
        (omega arith, (λ v. omega arith)) (ground arith) in
    (sum, once, watched ∙ ap (leb n) (omega arith))

-- ===== src/Worker/Shares.antt =====
-- The processes of a worker share its calls.
use lithops.Base.{
  ℕ, zero, suc, ◌+◌, ◌*◌, ◌<◌, ◌≡◌, refl, ap, sym, ◌∙◌, Bool, true, false, List, [], ◌∷◌, ◌++◌, map,
  length, count_if, count_if-append, ◌⊎◌, inl, inr, zero-cases, length-append, arith,
}
use lithops.Worker.Processes.{
  Event, call, shutdown_sentinel, sentinels, Pool, start_pool, PoolStep, take_call, finish,
  shut_down, go, die, PoolReach, at_start, then_step,
}

-- The processes that have not ended.
abbrev pub alive : Pool → ℕ
alive p = p.idle + length p.running

-- The processes that have not met their sentinel.
abbrev pub due : Pool → ℕ
due p = alive p + p.gone + length p.died

-- The queue holds calls and then an end for each process that has not met it; no call waits in vain.
record IsServed (call_ids : List ℕ) (p : Pool) : Type 0 where
  waiting : List ℕ
  queued : p.work_queue ≡ map call waiting ++ sentinels (due p)
  once :
      (t : ℕ → Bool)
      → count_if t waiting + count_if t p.running + count_if t p.ran + count_if t p.died
        ≡ count_if t call_ids
  served : due p ≡ 0 → waiting ≡ []

call_next :
    (waiting : List ℕ) (k c : ℕ) (rest : List Event)
    → call c ∷ rest ≡ map call waiting ++ sentinels k
    → (later : List ℕ) × (waiting ≡ c ∷ later) × (rest ≡ map call later ++ sentinels k)
call_next [] zero c rest e = cc
call_next [] (suc k) c rest e = cc
call_next (c' ∷ later) k c rest e = (later, cc, cc)

sentinel_next :
    (waiting : List ℕ) (k : ℕ) (rest : List Event)
    → shutdown_sentinel ∷ rest ≡ map call waiting ++ sentinels (suc k)
    → (waiting ≡ []) × (rest ≡ sentinels k)
sentinel_next [] k rest e = (refl, cc)
sentinel_next (c ∷ later) k rest e = cc

no_calls : (xs : List ℕ) → length xs ≡ 0 → xs ≡ []
no_calls [] e = refl
no_calls (x ∷ xs) e = absurd (omega arith)

module _ (call_ids : List ℕ) where
  IsServed-step : {p q : Pool} → IsServed call_ids p → PoolStep p q → IsServed call_ids q
  IsServed-step h (take_call p c rest idle there one) =
      let (later, first, behind) = call_next h.waiting (due p) c rest (sym there ∙ h.queued) in
      let same : due p ≡ idle + suc (length p.running) + p.gone + length p.died =
        omega (arith, one) in
      record {
        waiting = later;
        queued = behind ∙ ap (λ k. map call later ++ sentinels k) same;
        once = λ t.
            let before = h.once t in
            let here : count_if t h.waiting ≡ count_if t (c ∷ later) = ap (count_if t) first in
            ground (arith, before, here);
        served = λ none_left. absurd (omega arith);
      }
  IsServed-step h (finish p before after c one) =
      let size : length p.running ≡ length before + suc (length after) =
        ap length one ∙ length-append before (c ∷ after) in
      let same : due p ≡ p.idle + 1 + length (before ++ after) + p.gone + length p.died =
        omega (arith, size, length-append before after) in
      record {
        waiting = h.waiting;
        queued = h.queued ∙ ap (λ k. map call h.waiting ++ sentinels k) same;
        once = λ t.
            let whole = h.once t in
            let split : count_if t p.running ≡ count_if t before + count_if t (c ∷ after) =
              ap (count_if t) one ∙ count_if-append t before (c ∷ after) in
            let joined = count_if-append t before after in ground (arith, whole, split, joined);
        served = λ none_left. absurd (omega arith);
      }
  IsServed-step h (shut_down p rest idle there one) =
      let others = idle + length p.running + p.gone + length p.died in
      let same : due p ≡ suc others = omega (arith, one) in
      let queued : shutdown_sentinel ∷ rest ≡ map call h.waiting ++ sentinels (suc others) =
        sym there ∙ h.queued ∙ ap (λ k. map call h.waiting ++ sentinels k) same in
      let (no_call, behind) = sentinel_next h.waiting others rest queued in
      record {
        waiting = [];
        queued = behind;
        once = λ t.
            let before = h.once t in
            let here : count_if t h.waiting ≡ 0 = ap (count_if t) no_call in
            omega (arith, before, here);
        served = λ none_left. refl;
      }
  IsServed-step h (go p idle one) =
      let same : due p ≡ idle + length p.running + (p.gone + 1) + length p.died =
        omega (arith, one) in
      record {
        waiting = h.waiting;
        queued = h.queued ∙ ap (λ k. map call h.waiting ++ sentinels k) same;
        once = h.once;
        served = λ none_left. absurd (omega arith);
      }
  IsServed-step h (die p before after c one) =
      let size : length p.running ≡ length before + suc (length after) =
        ap length one ∙ length-append before (c ∷ after) in
      let same : due p ≡ p.idle + length (before ++ after) + p.gone + suc (length p.died) =
        omega (arith, size, length-append before after) in
      record {
        waiting = h.waiting;
        queued = h.queued ∙ ap (λ k. map call h.waiting ++ sentinels k) same;
        once = λ t.
            let whole = h.once t in
            let split : count_if t p.running ≡ count_if t before + count_if t (c ∷ after) =
              ap (count_if t) one ∙ count_if-append t before (c ∷ after) in
            let joined = count_if-append t before after in ground (arith, whole, split, joined);
        served = λ none_left. absurd (omega arith);
      }

  module _ (worker_processes : ℕ) (some_process : 0 < worker_processes) where
    IsServed-start : IsServed call_ids (start_pool worker_processes call_ids)
    unfolding start_pool
    IsServed-start = record {
      waiting = call_ids;
      queued = ap (λ k. map call call_ids ++ sentinels k) (omega arith);
      once = λ t. omega arith;
      served = λ none_left. no_calls call_ids (omega arith);
    }

    IsServed-reach :
        {p : Pool} → PoolReach (start_pool worker_processes call_ids) p → IsServed call_ids p
    IsServed-reach at_start = IsServed-start
    IsServed-reach (then_step r s) = IsServed-step (IsServed-reach r) s

abbrev is_call : Event → Bool
is_call (call c) = true
is_call shutdown_sentinel = false

-- What is left to do.
work_left : Pool → ℕ
work_left p = 2 * count_if is_call p.work_queue + 2 * length p.running + p.idle

abbrev pub steps : {s p : Pool} → PoolReach s p → ℕ
steps at_start = 0
steps (then_step r s) = suc (steps r)

module _ (worker_processes : ℕ) (call_ids : List ℕ) (p : Pool) (some_process : 0 < worker_processes)
    (r : PoolReach (start_pool worker_processes call_ids) p) where
  -- Of at least one process: when all processes have ended, whatever the order of the steps, the
  -- queue holds some of the calls and a sentinel for each process that ended without one, by an
  -- exception. Each call has run once, or has ended a process once, or is in the queue once: any test
  -- accepts as many of these together as of all calls. Calls are left in the queue only if some
  -- process ended without its sentinel.
  pub each_ran_once :
      p.idle ≡ 0
      → p.running ≡ []
      → (waiting : List ℕ) × (p.work_queue ≡ map call waiting ++ sentinels (p.gone + length p.died))
        × ((t : ℕ → Bool)
            → count_if t waiting + count_if t p.ran + count_if t p.died ≡ count_if t call_ids)
        × ((waiting ≡ []) ⊎ (0 < p.gone + length p.died))
  each_ran_once no_idle no_running =
      let h = IsServed-reach call_ids worker_processes some_process r in
      let early = p.gone + length p.died in
      let ended : due p ≡ early = omega (arith, no_idle, ap length no_running) in
      (
        h.waiting,
        h.queued ∙ ap (λ k. map call h.waiting ++ sentinels k) ended,
        λ t.
            let whole = h.once t in
            let runs : count_if t p.running ≡ 0 = ap (count_if t) no_running in
            omega (arith, whole, runs),
        elim (zero-cases early) [
          | inl none_early ↦ inl (h.served (ended ∙ none_early))
          | inr some_early ↦ inr some_early
        ],
      )

-- ===== src/Standalone/Idle.antt =====
-- When a keeper stops its instance.
use native.Mathlib.Nat.{div-add-mod, mod-lt}
use lithops.Base.{
  ℕ, ◌+◌, ◌-◌, ◌*◌, ◌/◌, ◌<◌, ap, leb, leb→le, leb-false→lt, ltb-false→le, ◌≤◌, ◌≡◌, Bool, true,
  false, ◌&&◌, List, [], ◌∷◌, length, ltb, if◌then◌else◌, Bool-cases, inl, inr, arith,
}
use lithops.Job.{minus}
use lithops.Standalone.Budget.{
  KeeperConfig, Keeper, all_done, some_time, int_seconds, new_keeper, add_job, set_job_done,
  read_done, count_down, stop_instance, turn, KeeperReach, started, added, job_finished, turned,
}

-- Every time of the list is so long ago.
abbrev pub AllAgo : ℕ → ℕ → List ℕ → Type 0
AllAgo timeout now [] = Unit
AllAgo timeout now (u ∷ used) = (u + timeout ≤ now) × AllAgo timeout now used

AllAgo-mono :
    (timeout timeout' now now' : ℕ) (used : List ℕ)
    → AllAgo timeout now used
    → now + timeout' ≤ now' + timeout
    → AllAgo timeout' now' used
AllAgo-mono timeout timeout' now now' [] h le = tt
AllAgo-mono timeout timeout' now now' (u ∷ used) (ago, h) le =
    (omega arith, AllAgo-mono timeout timeout' now now' used h le)

-- The keeper's own time is none before the last usage and none after the clock.
record IsTimed (used : List ℕ) (now : ℕ) (k : Keeper) : Type 0 where
  used_before : AllAgo 0 k.last_usage_time used
  in_past : k.last_usage_time ≤ now

int_seconds_lem :
    (second m n : ℕ)
    → 0 < second
    → some_time (int_seconds second (minus m n)) ≡ false
    → m < n + second
int_seconds_lem second m n p h = elim (Bool-cases (leb n m)) [
  | inr less ↦ let lt = leb-false→lt n m less in omega arith
  | inl le ↦
      let whole = div-add-mod (m - n) second in
      let part = mod-lt (m - n) p in
      let low = leb→le n m le in
      let none_left : ltb 0 ((m - n) / second) ≡ false = ground (arith, le, h) in
      let zero_seconds = ltb-false→le 0 ((m - n) / second) none_left in
      let q : (m - n) / second ≡ 0 = omega arith in let same = ap (λ k. second * k) q in grind arith
]

module _ (config : KeeperConfig) (second : ℕ) where
  last-count_down :
      (now : ℕ) (is_file : ℕ → Bool) (k : Keeper)
      → k.last_usage_time ≤ now
      → (k.last_usage_time ≤ (count_down config second now is_file k).last_usage_time)
        × ((count_down config second now is_file k).last_usage_time ≤ now)
  unfolding count_down read_done
  last-count_down now is_file k h = (ground arith, ground arith)

  last-turn :
      (now : ℕ) (is_file : ℕ → Bool) (stopped : Bool) (k : Keeper)
      → (turn config second now is_file stopped k).last_usage_time
        ≡ (count_down config second now is_file k).last_usage_time
  unfolding turn stop_instance
  last-turn now is_file stopped k = ground arith

  IsTimed-KeeperReach :
      {start : ℕ} {used : List ℕ} {now : ℕ} {k : Keeper}
      → KeeperReach config second start used now k
      → IsTimed used now k
  unfolding new_keeper add_job set_job_done
  IsTimed-KeeperReach (started) = record { used_before = (omega arith, tt); in_past = omega arith }
  IsTimed-KeeperReach (added before now job_key k r le) =
      let h = IsTimed-KeeperReach r in
      record {
        used_before = (
          omega arith,
          AllAgo-mono 0 0 k.last_usage_time now _ h.used_before (omega (arith, h.in_past)),
        );
        in_past = omega arith;
      }
  IsTimed-KeeperReach (job_finished before now job_key k r le) =
      let h = IsTimed-KeeperReach r in
      record {
        used_before = (
          omega arith,
          AllAgo-mono 0 0 k.last_usage_time now _ h.used_before (omega (arith, h.in_past)),
        );
        in_past = omega arith;
      }
  IsTimed-KeeperReach (turned before now is_file stopped k r le) =
      let h = IsTimed-KeeperReach r in
      let (later, past) = last-count_down now is_file k (omega (arith, h.in_past)) in
      let same = last-turn now is_file stopped k in
      record {
        used_before =
            AllAgo-mono 0 0 k.last_usage_time _ _ h.used_before (omega (arith, later, same));
        in_past = omega (arith, past, same);
      }

  -- The timeout that counts: the soft one if all jobs, of which there are some, are done.
  abbrev pub timeout : (ℕ → Bool) → Keeper → ℕ
  timeout is_file k =
      let seen = read_done is_file k in
      if ltb 0 (length seen.jobs) && all_done seen.jobs && config.auto_dismantle
      then config.soft_dismantle_timeout
      else config.hard_dismantle_timeout

  out_of_time :
      (now : ℕ) (is_file : ℕ → Bool) (k : Keeper)
      → 0 < second
      → k.last_usage_time ≤ now
      → some_time (count_down config second now is_file k).time_to_dismantle ≡ false
      → timeout is_file k * second < now - k.last_usage_time + second
  unfolding count_down read_done
  out_of_time now is_file k p past h =
      let seen = read_done is_file k in
      let soft = config.soft_dismantle_timeout in
      let hard = config.hard_dismantle_timeout in
      let last = if k.jobs_running then now else k.last_usage_time in
      let later : k.last_usage_time ≤ last = ground arith in
      elim (Bool-cases (ltb 0 (length seen.jobs) && all_done seen.jobs && config.auto_dismantle)) [
        | inl all ↦
            let lt =
              int_seconds_lem second (soft * second) (now - last) p (rw (all, count_down) at h) in
            rw (timeout, all) (omega arith)
        | inr some_run ↦
            rw (timeout, some_run)
              (int_seconds_lem second (hard * second) (now - k.last_usage_time) p
                (rw (some_run, count_down) at h))
      ]

  stopped-turn :
      (now : ℕ) (is_file : ℕ → Bool) (stopped : Bool) (k : Keeper)
      → k.runing ≡ true
      → (turn config second now is_file stopped k).runing ≡ false
      → some_time (count_down config second now is_file k).time_to_dismantle ≡ false
  unfolding turn stop_instance count_down read_done
  stopped-turn now is_file stopped k on off = ground arith

  -- A turn that stops the instance of a running keeper comes later than a second before the timeout
  -- is over, counted from the start and from each time at which a job was added or finished: the soft
  -- timeout if jobs were added, all of them are done and the instance is to be dismantled, else the
  -- hard one. Times are in ticks, of which a second has at least one.
  pub AllAgo-turn :
      (start before now : ℕ) (used : List ℕ) (is_file : ℕ → Bool) (stopped : Bool) (k : Keeper)
      → 0 < second
      → KeeperReach config second start used before k
      → before ≤ now
      → k.runing ≡ true
      → (turn config second now is_file stopped k).runing ≡ false
      → AllAgo (timeout is_file k * second) (now + (second - 1)) used
  AllAgo-turn start before now used is_file stopped k p r le on off =
      let h = IsTimed-KeeperReach r in
      let past : k.last_usage_time ≤ now = omega (arith, h.in_past) in
      let out = out_of_time now is_file k p past (stopped-turn now is_file stopped k on off) in
      AllAgo-mono 0 (timeout is_file k * second) k.last_usage_time (now + (second - 1)) used
        h.used_before (omega arith)

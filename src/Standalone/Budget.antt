-- ===== src/Standalone/Budget.antt =====
-- BudgetKeeper of lithops/standalone/keeper.py, with a clock that does not go back. A time is a number
-- of the clock's ticks, of which a second has `second`; the timeouts are whole seconds.
-- The instance's stop and the callbacks are the backend's: all that is seen of them is whether the
-- instance could be stopped.
use lithops.Base.{
  ℕ, suc, ◌-◌, ◌*◌, ◌/◌, ◌≤◌, Bool, true, false, not, ◌&&◌, ◌||◌, List, [], ◌∷◌, map, length, ltb,
  ◌==◌, if◌then◌else◌,
}
use lithops.Job.{ℤ, pos, negsuc, minus}

pub record KeeperConfig : Type 0 where
  pub auto_dismantle : Bool
  pub soft_dismantle_timeout : ℕ
  pub hard_dismantle_timeout : ℕ

-- A job's status is whether it is done.
pub record Keeper : Type 0 where
  pub last_usage_time : ℕ
  pub jobs : List (ℕ × Bool)
  pub time_to_dismantle : ℤ
  pub jobs_running : Bool
  pub runing : Bool

-- self.jobs[job_key] = status
abbrev pub set_status : ℕ → Bool → List (ℕ × Bool) → List (ℕ × Bool)
set_status job_key done [] = (job_key, done) ∷ []
set_status job_key done ((k, d) ∷ jobs) =
    let rest = set_status job_key done jobs in
    if k == job_key then (k, done) ∷ jobs else (k, d) ∷ rest

abbrev pub all_done : List (ℕ × Bool) → Bool
all_done [] = true
all_done ((_, d) ∷ jobs) = d && all_done jobs

abbrev pub some_time : ℤ → Bool
some_time (pos n) = ltb 0 n
some_time (negsuc n) = false

-- int() of a number of ticks, in seconds: it drops the fraction.
abbrev pub int_seconds : (second : ℕ) → ℤ → ℤ
int_seconds second (pos n) = pos (n / second)
int_seconds second (negsuc n) = minus 0 (suc n / second)

unfoldable pub new_keeper : KeeperConfig → (now : ℕ) → Keeper
new_keeper config now = record {
  last_usage_time = now;
  jobs = [];
  time_to_dismantle = pos config.hard_dismantle_timeout;
  jobs_running = false;
  runing = true;
}

unfoldable pub add_job : (now job_key : ℕ) → Keeper → Keeper
add_job now job_key k = record k { last_usage_time = now; jobs = set_status job_key false k.jobs }

unfoldable pub set_job_done : (now job_key : ℕ) → Keeper → Keeper
set_job_done now job_key k = record k {
  last_usage_time = now;
  jobs = set_status job_key true k.jobs;
}

-- The jobs that have left a file.
unfoldable pub read_done : (ℕ → Bool) → Keeper → Keeper
read_done is_file k = record k { jobs = map (λ j. (j.0, is_file j.0 || j.1)) k.jobs }

-- A turn of the loop up to its test.
unfoldable pub count_down : KeeperConfig → (second now : ℕ) → (ℕ → Bool) → Keeper → Keeper
unfolding read_done
count_down config second now is_file keeper =
    let k = read_done is_file keeper in
    let last = if k.jobs_running then now else k.last_usage_time in
    if ltb 0 (length k.jobs) && all_done k.jobs && config.auto_dismantle
    then record k {
      jobs_running = false;
      last_usage_time = last;
      time_to_dismantle =
          int_seconds second (minus (config.soft_dismantle_timeout * second) (now - last));
    }
    else record k {
      time_to_dismantle =
          int_seconds second
            (minus (config.hard_dismantle_timeout * second) (now - k.last_usage_time));
      jobs_running = true;
    }

unfoldable pub stop_instance : (stopped : Bool) → Keeper → Keeper
stop_instance stopped k = record k { runing = k.runing && not stopped }

unfoldable pub turn :
    KeeperConfig → (second now : ℕ) → (ℕ → Bool) → (stopped : Bool) → Keeper → Keeper
unfolding count_down stop_instance
turn config second now is_file stopped keeper =
    let k = count_down config second now is_file keeper in
    if some_time k.time_to_dismantle then k else stop_instance stopped k

-- A keeper that was started at a time, at a later time, with the times at which a job was added or
-- finished, the last first.
pub data KeeperReach (config : KeeperConfig) (second start : ℕ) : List ℕ → ℕ → Keeper → Type 0 where
  started : KeeperReach config second start (start ∷ []) start (new_keeper config start)
  added :
      {used : List ℕ} (before now job_key : ℕ) (k : Keeper)
      → KeeperReach config second start used before k
      → before ≤ now
      → KeeperReach config second start (now ∷ used) now (add_job now job_key k)
  job_finished :
      {used : List ℕ} (before now job_key : ℕ) (k : Keeper)
      → KeeperReach config second start used before k
      → before ≤ now
      → KeeperReach config second start (now ∷ used) now (set_job_done now job_key k)
  turned :
      {used : List ℕ} (before now : ℕ) (is_file : ℕ → Bool) (stopped : Bool) (k : Keeper)
      → KeeperReach config second start used before k
      → before ≤ now
      → KeeperReach config second start used now (turn config second now is_file stopped k)

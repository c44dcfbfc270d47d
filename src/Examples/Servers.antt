-- ===== src/Examples/Servers.antt =====
-- Semaphores, work queues and the keeper.
use lithops.Base.{◌+◌, ◌≡◌, refl, true, false, not, some, [], ◌∷◌, length, keep, ◌==◌, arith}
use lithops.Examples.Plain.{Lists, plain, plain-IsRedis, no_lists}
use lithops.Multiprocessing.{SemLock, new_sem_lock, get_value, acquire}
use lithops.Multiprocessing.Exclusion.{Shared, SemReach, at_start, then_step, taken, semaphore_held}
use lithops.Standalone.{
  Server, JobData, submitted, canceled, cancel_job, KeeperConfig, Keeper, KeeperReach, started,
  added, job_finished, turn, new_keeper, add_job, set_job_done,
}
use lithops.Standalone.Tasks.{cancel_job-others}
use lithops.Standalone.Idle.{AllAgo, AllAgo-turn}

-- A Lock under the key 3, which process 7 has taken.
abbrev made : SemLock × Lists
unfolding new_sem_lock
made = new_sem_lock plain 3 1 1 no_lists

abbrev taken_once : Shared Lists
unfolding made
taken_once = record { client = (plain.lpop 3 made.1).1; holders = 7 ∷ [] }

taken_reach : SemReach plain made.0 (record { client = made.1; holders = [] }) taken_once
unfolding made taken_once acquire new_sem_lock
taken_reach = then_step at_start (taken _ 7 true _ refl)

semaphore_held_example : get_value plain made.0 taken_once.client + length taken_once.holders ≡ 1
unfolding made plain-IsRedis
semaphore_held_example =
    semaphore_held plain plain-IsRedis 3 1 1 no_lists taken_once refl (omega arith) taken_reach

-- A queue with tasks of the jobs 1 and 2, a task being its job's key.
abbrev one_job : JobData
one_job = record { status = submitted; total_tasks = 2; queue_name = 5 }

abbrev master : Server Lists
master = record { client = λ k. 1 ∷ 2 ∷ 1 ∷ []; jobs = λ k. some one_job }

cancel_job-others_example :
    (server' : Server Lists) × (cancel_job plain 4 (λ t. t) 2 1 master ≡ some (server', false))
    × (server'.client 5 ≡ keep (λ t. not (t == 1)) (1 ∷ 2 ∷ 1 ∷ []))
    × (server'.jobs 1 ≡ some (record one_job { status = canceled }))
unfolding plain-IsRedis
cancel_job-others_example =
    cancel_job-others plain plain-IsRedis (λ t. t) 1 4 2 master one_job refl (omega arith)

abbrev config : KeeperConfig
config = record {
  auto_dismantle = true;
  soft_dismantle_timeout = 300;
  hard_dismantle_timeout = 3600;
}

-- Ten ticks are a second; half a second is left, which counts as none.
abbrev idle : Keeper
unfolding new_keeper add_job set_job_done
idle = set_job_done 200 1 (add_job 100 1 (new_keeper config 0))

idle_reach : KeeperReach config 10 0 (200 ∷ 100 ∷ 0 ∷ []) 200 idle
unfolding idle
idle_reach = job_finished 100 200 1 _ (added 0 100 1 _ started (omega arith)) (omega arith)

AllAgo-turn_example : AllAgo 3000 (3195 + 9) (200 ∷ 100 ∷ 0 ∷ [])
unfolding idle turn
AllAgo-turn_example =
    AllAgo-turn config 10 0 200 3195 (200 ∷ 100 ∷ 0 ∷ []) (λ j. false) true idle (omega arith)
      idle_reach (omega arith) refl refl

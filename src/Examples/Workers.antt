-- ===== src/Examples/Workers.antt =====
-- Workers.
use lithops.Base.{
  List, map, ◌++◌, ◌+◌, ◌<◌, ℕ, ◌≡◌, ◌⊎◌, refl, Bool, some, [], ◌∷◌, codes, count_if, arith, true,
}
use lithops.Future.{fresh, set_invoked, result, returned, value}
use lithops.Worker.{
  returns_value, finished, Ids, run_task, storage_of, start_pool, take_call, finish, shut_down, die,
  call, shutdown_sentinel, sentinels, PoolReach, at_start, then_step, Pool,
}
use lithops.Worker.Refines.{run_task-expected}
use lithops.Worker.Shares.{each_ran_once}

abbrev ids : Ids
ids = record {
  executor_id = codes "e-0";
  job_id = codes "A000";
  call_id = codes "00000";
  activation_id = codes "a";
}

run_task-expected_example :
    (result 1 3 true
      (storage_of {E = ℕ} ids (run_task ids (returns_value (codes "7")) finished true []))
      (set_invoked fresh)).0
    ≡ returned (some (value (codes "7")))
run_task-expected_example = run_task-expected ids 0 3 [] (returns_value (codes "7")) finished true

abbrev one_call : List ℕ
one_call = 5 ∷ []

abbrev served : Pool
served = record { work_queue = []; idle = 0; running = []; ran = 5 ∷ []; gone = 0; died = [] }

-- Of two processes, one is ended by its call, and the other runs its own.
abbrev one_lost : Pool
one_lost = record {
  work_queue = shutdown_sentinel ∷ [];
  idle = 0;
  running = [];
  ran = 6 ∷ [];
  gone = 0;
  died = 5 ∷ [];
}

lose_one : PoolReach (start_pool 2 (5 ∷ 6 ∷ [])) one_lost
unfolding start_pool
lose_one =
    then_step
      (then_step
        (then_step
          (then_step (then_step at_start (take_call _ 5 _ 1 refl refl)) (die _ [] [] 5 refl))
          (take_call _ 6 _ 0 refl refl))
        (finish _ [] [] 6 refl))
      (shut_down _ _ 0 refl refl)

each_ran_once_example :
    (waiting : List ℕ) × (one_lost.work_queue ≡ map call waiting ++ sentinels 1)
    × ((t : ℕ → Bool)
        → count_if t waiting + count_if t one_lost.ran + count_if t one_lost.died
          ≡ count_if t (5 ∷ 6 ∷ []))
    × ((waiting ≡ []) ⊎ (0 < 1))
each_ran_once_example = each_ran_once 2 (5 ∷ 6 ∷ []) one_lost (omega arith) lose_one refl refl

-- ===== src/Examples/Waiters.antt =====
-- A condition, over a plain server.
use lithops.Base.{◌≢◌, refl, true, false, none, [], ◌∷◌, arith}
use lithops.Examples.Plain.{Lists, plain, plain-IsRedis, no_lists}
use lithops.Multiprocessing.{release_lock}
use lithops.Multiprocessing.Conditions.{
  Condition, Room, WaitReach, at_start, then_step, enqueued, begin_wait, notify_all, wake_all,
  take_token,
}
use lithops.Multiprocessing.Conditions.Wakes.{notify_all-wakes}

abbrev condition : Condition
condition = record { lock = record { name = 2; max_value = 1 }; notify_handle = 8 }

-- A process that owns the lock waits under the key 20.
abbrev enlisted : Lists
unfolding release_lock
enlisted = (release_lock plain condition.lock (true, plain.rpush 8 20 no_lists)).1

abbrev one_waits : Room Lists
unfolding enlisted
one_waits = record { client = enlisted; waiting = 20 ∷ [] }

waits_reach : WaitReach plain condition (record { client = no_lists; waiting = [] }) one_waits
unfolding one_waits enlisted begin_wait
waits_reach = then_step at_start (enqueued _ 20 false _ (omega arith) (omega arith) tt refl)

abbrev told_all : Lists
unfolding one_waits wake_all
told_all = wake_all plain condition one_waits.client

notify_all-wakes_example : take_token plain 20 told_all ≢ none
unfolding told_all one_waits plain-IsRedis notify_all
notify_all-wakes_example =
    notify_all-wakes plain plain-IsRedis condition (omega arith) no_lists told_all one_waits [] []
      20 refl waits_reach refl refl

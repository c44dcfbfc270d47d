-- ===== src/Examples/Joins.antt =====
-- A JoinableQueue with one object.
use lithops.Base.{◌≡◌, refl, false, arith}
use lithops.Examples.Plain.{Lists, plain, plain-IsRedis, no_lists}
use lithops.Multiprocessing.{sem_value_max, get_value, acquire, release}
use lithops.Multiprocessing.Conditions.{wake_all}
use lithops.Multiprocessing.Queues as Q
use lithops.Multiprocessing.Queues.Joins.{
  JoinableQueue, put_unfinished, tell_if_none, task_done, join, Progress, JoinReach, at_start,
  then_step, object_put, task_finished,
}
use lithops.Multiprocessing.Queues.Joined.{join_finished}

abbrev tasks : JoinableQueue
tasks = record {
  queue = record { handle = 5; maxsize = 0; closed = false };
  unfinished_tasks = record { name = 6; max_value = sem_value_max };
  cond = record { lock = record { name = 7; max_value = 1 }; notify_handle = 8 };
}

abbrev one_put : Progress Lists
unfolding put_unfinished release Q.put Q.not_full Q.send_bytes
one_put = record { client = (put_unfinished plain tasks 30 no_lists).1; asked = 1; finished = 0 }

abbrev one_done : Progress Lists
unfolding one_put task_done acquire tell_if_none get_value wake_all
one_done = record { client = (task_done plain tasks one_put.client).1; asked = 1; finished = 1 }

done_reach : JoinReach plain tasks (record { client = no_lists; asked = 0; finished = 0 }) one_done
unfolding one_put one_done task_done acquire tell_if_none get_value wake_all put_unfinished release
    Q.put Q.not_full Q.send_bytes
done_reach =
    then_step (then_step at_start (object_put _ 30 one_put.client (omega arith) refl))
      (task_finished one_put one_done.client refl)

join_finished_example : one_done.finished ≡ one_done.asked
unfolding plain-IsRedis one_done one_put task_done acquire tell_if_none get_value wake_all
    put_unfinished release Q.put Q.not_full Q.send_bytes join
join_finished_example =
    join_finished plain plain-IsRedis tasks (omega arith) (omega arith) (omega arith) no_lists 9
      refl refl done_reach refl

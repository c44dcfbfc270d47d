-- ===== src/Multiprocessing/Queues/Joins.antt =====
-- JoinableQueue of lithops/multiprocessing/queues.py. What a method does under `with self._cond` is
-- one step: the lock itself, of Synchronize, is left out, and of `wait` the key that it leaves.
use lithops.Base.{ℕ, suc, ◌<◌, ◌≡◌, ◌≢◌, Bool, true, false, none, some, if◌then◌else◌, ◌==◌}
use lithops.Redis.{Redis}
use lithops.Multiprocessing.{SemLock, get_value, acquire, release}
use lithops.Multiprocessing.Conditions.{Condition, wake_all}
use lithops.Multiprocessing.Queues.Defs.{Queue, Reply, nothing, value_error, put, get}

pub record JoinableQueue : Type 0 where
  pub queue : Queue
  pub unfinished_tasks : SemLock
  pub cond : Condition

module _ {S : Type 0} (redis : Redis S) where
  -- The exception of a closed queue comes before the release.
  unfoldable pub put_unfinished : JoinableQueue → ℕ → S → Reply × S
  unfolding release
  put_unfinished j obj s =
      if j.queue.closed
      then (value_error, s)
      else (nothing, release redis j.unfinished_tasks (put redis j.queue obj s).1)

  -- After a task is taken off: the waiting are told when none is left.
  unfoldable pub tell_if_none : JoinableQueue → S → S
  unfolding get_value wake_all
  tell_if_none j s =
      if get_value redis j.unfinished_tasks s == 0 then wake_all redis j.cond s else s

  -- acquire(False) never waits.
  unfoldable pub task_done : JoinableQueue → S → Reply × S
  unfolding acquire tell_if_none
  task_done j s = elim (acquire redis false j.unfinished_tasks s) [
    | none ↦ (value_error, s)
    | some (res, s') ↦ if res then (nothing, tell_if_none j s') else (value_error, s')
  ]

  -- Whether it waits, under the new key `handle`.
  unfoldable pub join : (handle : ℕ) → JoinableQueue → S → Bool × S
  unfolding get_value
  join handle j s =
      if get_value redis j.unfinished_tasks s == 0
      then (false, s)
      else (true, redis.rpush j.cond.notify_handle handle s)

-- `asked` objects were put without an error, and `finished` were reported as done.
pub record Progress (S : Type 0) : Type 0 where
  pub client : S
  pub asked : ℕ
  pub finished : ℕ

module _ {S : Type 0} (redis : Redis S) (j : JoinableQueue) where
  pub data JoinStep : Progress S → Progress S → Type 0 where
    object_put :
        (w : Progress S) (obj : ℕ) (s : S)
        → get_value redis j.unfinished_tasks w.client < j.unfinished_tasks.max_value
        → put_unfinished redis j obj w.client ≡ (nothing, s)
        → JoinStep w (record w { client = s; asked = suc w.asked })
    object_got :
        (w : Progress S) (forever : Bool) (reply : Reply) (s : S)
        → get redis forever j.queue w.client ≡ some (reply, s)
        → JoinStep w (record w { client = s })
    task_finished :
        (w : Progress S) (s : S)
        → task_done redis j w.client ≡ (nothing, s)
        → JoinStep w (record w { client = s; finished = suc w.finished })
    joined :
        (w : Progress S) (handle : ℕ)
        → handle ≢ j.unfinished_tasks.name
        → handle ≢ j.cond.notify_handle
        → JoinStep w (record w { client = (join redis handle j w.client).1 })
    woken :
        (w : Progress S) (handle : ℕ)
        → handle ≢ j.unfinished_tasks.name
        → handle ≢ j.cond.notify_handle
        → JoinStep w (record w { client = (redis.lpop handle w.client).1 })

  pub data JoinReach (v : Progress S) : Progress S → Type 0 where
    at_start : JoinReach v v
    then_step : {w x : Progress S} → JoinReach v w → JoinStep w x → JoinReach v x

-- ===== src/Multiprocessing/Queues/Defs.antt =====
-- Queue and SimpleQueue of lithops/multiprocessing/queues.py over a pipe of Redis lists, with what
-- they use of lithops/multiprocessing/connection.py. A command that finds nothing to take waits: its
-- result is `none`. An object is the number of its pickled form.
use lithops.Base.{
  ℕ, ◌<◌, ◌≡◌, Bool, true, false, Option, none, some, List, [], ◌∷◌, ◌++◌, length, ltb,
  if◌then◌else◌,
}
use lithops.Redis.{Redis}

-- A process's own object: `handle` is the key of the reader, to which the writer writes.
pub record Queue : Type 0 where
  pub handle : ℕ
  pub maxsize : ℕ
  pub closed : Bool

pub data Reply : Type 0 where
  object : ℕ → Reply
  nothing empty_error value_error os_error assertion_error : Reply

module _ {S : Type 0} (redis : Redis S) where
  -- len(self._reader)
  unfoldable pub qsize : Queue → S → ℕ
  qsize q s = redis.llen q.handle s

  unfoldable pub not_full : Queue → S → Bool
  unfolding qsize
  not_full q s = if ltb 0 q.maxsize then ltb (qsize q s) q.maxsize else true

  -- _poll(timeout): there is something to read when it returns.
  unfoldable pub poll : Queue → S → Bool
  poll q s = ltb 0 (redis.llen q.handle s)

  -- _send_bytes of the writer: _listwrite.
  unfoldable pub send_bytes : Queue → ℕ → S → S
  send_bytes q obj s = redis.rpush q.handle obj s

  -- recv_bytes: _listread.
  unfoldable pub recv_bytes : Queue → S → Option (ℕ × S)
  recv_bytes q s =
      let (head, s') = redis.lpop q.handle s in elim head [ none ↦ none | some v ↦ some (v, s') ]

  unfoldable pub put : Queue → ℕ → S → Reply × S
  unfolding not_full send_bytes
  put q obj s =
      if q.closed
      then (value_error, s)
      else (if not_full q s then (nothing, send_bytes q obj s) else (nothing, s))

  -- `forever` is a call that blocks without a timeout. A closed reader has no handle.
  unfoldable pub get : (forever : Bool) → Queue → S → Option (Reply × S)
  unfolding poll recv_bytes
  get forever q s =
      let received : Option (Reply × S) = elim (recv_bytes q s) [
        | none ↦ none
        | some (v, s') ↦ some (object v, s')
      ] in
      if q.closed
      then some (os_error, s)
      else (if forever then received else (if poll q s then received else some (empty_error, s)))

  unfoldable pub empty : Queue → S → Bool
  unfolding poll
  empty q s = if poll q s then false else true

  unfoldable pub full : Queue → S → Bool
  unfolding qsize
  full q s = if ltb 0 q.maxsize then ltb (qsize q s) q.maxsize else false

  unfoldable pub put_simple : Queue → ℕ → S → Reply × S
  unfolding send_bytes
  put_simple q obj s = if q.closed then (assertion_error, s) else (nothing, send_bytes q obj s)

unfoldable pub close : Queue → Queue
close q = record q { closed = true }

-- The server, with the objects whose `put` found room and has not written yet, and those that were
-- written and that were got, in order.
pub record Shared (S : Type 0) : Type 0 where
  pub client : S
  pub pending : List ℕ
  pub written : List ℕ
  pub got : List ℕ

-- Processes, `processes` of which put, use an open queue: the test of `put` is one command, and the
-- write is another.
module _ {S : Type 0} (redis : Redis S) (q : Queue) (processes : ℕ) where
  pub data QueueStep : Shared S → Shared S → Type 0 where
    tested :
        (w : Shared S) (obj : ℕ)
        → not_full redis q w.client ≡ true
        → length w.pending < processes
        → QueueStep w (record w { pending = obj ∷ w.pending })
    wrote :
        (w : Shared S) (before after : List ℕ) (obj : ℕ)
        → w.pending ≡ before ++ obj ∷ after
        → QueueStep w (record w {
          client = send_bytes redis q obj w.client;
          pending = before ++ after;
          written = w.written ++ obj ∷ [];
        })
    received :
        (w : Shared S) (forever : Bool) (obj : ℕ) (s : S)
        → get redis forever q w.client ≡ some (object obj, s)
        → QueueStep w (record w { client = s; got = w.got ++ obj ∷ [] })

  pub data QueueReach (v : Shared S) : Shared S → Type 0 where
    at_start : QueueReach v v
    then_step : {w u : Shared S} → QueueReach v w → QueueStep w u → QueueReach v u

-- A new queue under a key with no list.
abbrev pub opened : {S : Type 0} → S → Shared S
opened s = record { client = s; pending = []; written = []; got = [] }

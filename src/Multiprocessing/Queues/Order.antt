-- ===== src/Multiprocessing/Queues/Order.antt =====
-- What a queue keeps of the objects that are put in it.
use lithops.Base.{
  ℕ, ◌+◌, ◌≤◌, ◌<◌, ◌≡◌, sym, ap, ◌∙◌, Bool, true, some, Option-cases, inl, inr, List, [], ◌∷◌,
  ◌++◌, append_assoc, length, length-append, ltb→lt, lt→ltb, arith,
}
use lithops.Redis.{Redis, IsRedis, first, rest}
use lithops.Multiprocessing.Queues.Defs.{
  Queue, object, qsize, not_full, poll, send_bytes, recv_bytes, get, Shared, QueueStep, tested,
  wrote, received, QueueReach, at_start, then_step, opened,
}

pub first-rest : (xs : List ℕ) {v : ℕ} → first xs ≡ some v → xs ≡ v ∷ rest xs
first-rest [] e = cc
first-rest (x ∷ xs) e = cc

module _ {S : Type 0} (redis : Redis S) (is : IsRedis redis) (q : Queue) where
  -- What is received was at the head.
  items-get :
      (forever : Bool) (s : S) {obj : ℕ} {s' : S}
      → get redis forever q s ≡ some (object obj, s')
      → is.items q.handle s ≡ obj ∷ is.items q.handle s'
  unfolding get poll recv_bytes
  items-get forever s {obj} {s'} e = elim (Option-cases (redis.lpop q.handle s).0) [
    | inl none_left ↦ ground arith
    | inr (v, there) ↦
        let head = first-rest (is.items q.handle s) (sym (is.lpop-first q.handle s) ∙ there) in
        let left = is.lpop-items q.handle s in
        let same : v ≡ obj = ground arith in
        let after : (redis.lpop q.handle s).1 ≡ s' = ground arith in
        head
        ∙ ap (λ l. v ∷ l) (sym left ∙ ap (is.items q.handle) after)
        ∙ ap (λ o. o ∷ is.items q.handle s') same
  ]

  room_left :
      (w : Shared S)
      → 0 < q.maxsize
      → not_full redis q w.client ≡ true
      → length (is.items q.handle w.client) < q.maxsize
  unfolding not_full qsize
  room_left w bounded room =
      let n = is.llen-items q.handle w.client in
      let limited = lt→ltb 0 q.maxsize bounded in
      let below = ltb→lt _ _ (rw (limited, not_full) at room) in omega (arith, n, below)

  -- What was got, and what is left, is what was written.
  InOrder : Shared S → Type 0
  InOrder w = w.got ++ is.items q.handle w.client ≡ w.written

  InOrder-QueueStep :
      (processes : ℕ) {w u : Shared S} → InOrder w → QueueStep redis q processes w u → InOrder u
  unfolding InOrder send_bytes
  InOrder-QueueStep processes h (tested w obj room few) = h
  InOrder-QueueStep processes h (wrote w before after obj one) =
      ap (λ l. w.got ++ l) (is.rpush-items q.handle obj w.client)
      ∙ sym (append_assoc w.got (is.items q.handle w.client) (obj ∷ []))
      ∙ ap (λ l. l ++ obj ∷ []) h
  InOrder-QueueStep processes h (received w forever obj s e) =
      append_assoc w.got (obj ∷ []) (is.items q.handle s)
      ∙ ap (λ l. w.got ++ l) (sym (items-get forever w.client e))
      ∙ h

  -- On a server whose commands do as documented, whatever processes put and get in which order: what
  -- was got, followed by what is in the queue, is what was written, in order.
  pub queue_in_order :
      (processes : ℕ) (s : S) {w : Shared S}
      → is.items q.handle s ≡ []
      → QueueReach redis q processes (opened s) w
      → w.got ++ is.items q.handle w.client ≡ w.written
  unfolding InOrder
  queue_in_order processes s new at_start = new
  queue_in_order processes s new (then_step r step) =
      InOrder-QueueStep processes (queue_in_order processes s new r) step

  size : Shared S → ℕ
  size w = length (is.items q.handle w.client)

  -- The objects in the queue and those on their way.
  Within : ℕ → Shared S → Type 0
  Within processes w =
      (length w.pending ≤ processes) × (size w + length w.pending < q.maxsize + processes)

  Within-QueueStep :
      (processes : ℕ) {w u : Shared S}
      → 0 < q.maxsize
      → Within processes w
      → QueueStep redis q processes w u
      → Within processes u
  unfolding Within send_bytes size
  Within-QueueStep processes bounded (all, few) (tested w obj room free) =
      let below = room_left w bounded room in (omega arith, omega (arith, below))
  Within-QueueStep processes bounded (all, few) (wrote w before after obj one) =
      let pending = ap length one ∙ length-append before (obj ∷ after) in
      let left = length-append before after in
      let more =
        ap length (is.rpush-items q.handle obj w.client)
        ∙ length-append (is.items q.handle w.client) (obj ∷ []) in
      (omega (arith, pending, left), omega (arith, pending, left, more))
  Within-QueueStep processes bounded (all, few) (received w forever obj s e) =
      let less = ap length (items-get forever w.client e) in (all, omega (arith, less))

  Within-QueueReach :
      (processes : ℕ) {v w : Shared S}
      → 0 < q.maxsize
      → Within processes v
      → QueueReach redis q processes v w
      → Within processes w
  Within-QueueReach processes bounded h at_start = h
  Within-QueueReach processes bounded h (then_step r step) =
      Within-QueueStep processes bounded (Within-QueueReach processes bounded h r) step

  -- To a new queue with a maximal size, on a server whose commands do as documented, processes put,
  -- so many at most at one time: the objects in the queue and those that are on their way to it are
  -- together fewer than the maximal size and the number of the processes, whoever gets what when. The
  -- maximal size itself may be passed, except by one process.
  pub queue_bounded :
      (processes : ℕ) (s : S) {w : Shared S}
      → 0 < q.maxsize
      → is.items q.handle s ≡ []
      → QueueReach redis q processes (opened s) w
      → length (is.items q.handle w.client) + length w.pending < q.maxsize + processes
  unfolding Within size
  queue_bounded processes s bounded new r =
      let empty = ap length new in
      (Within-QueueReach processes bounded (omega arith, omega (arith, empty)) r).1

-- ===== src/Examples/Shared.antt =====
-- Lists, queues and references of processes, over a plain server.
use lithops.Base.{
  ◌+◌, ◌<◌, ◌≡◌, refl, false, none, some, List, [], ◌∷◌, ◌++◌, length, ltb, ◌==◌, if◌then◌else◌,
  pos, negsuc, arith,
}
use lithops.Examples.Plain.{Lists, put, plain, plain-IsRedis, no_lists}
use lithops.Multiprocessing.Lists.{nothing, set_slice}
use lithops.Multiprocessing.Lists.Refines.{
  Op, append, pop_at, get_slice, insert, reverse_self, pop, mul_self, del_item,
}
use lithops.Multiprocessing.Lists.Assign.{set_slice-short}
use lithops.Multiprocessing.Queues as Q
use lithops.Multiprocessing.Queues.{
  Queue, Shared, QueueReach, at_start, then_step, tested, wrote, received, opened,
}
use lithops.Multiprocessing.Queues.Order.{queue_in_order, queue_bounded}
use lithops.Multiprocessing.References.{
  RemoteReference, World, RefReach, refcount, created, copied, dropped, set_state, drop_ref,
}
use lithops.Multiprocessing.References as R
use lithops.Multiprocessing.References.Counts.{refcount-live}

abbrev three : Lists
three = put 4 (7 ∷ 8 ∷ 9 ∷ []) no_lists

abbrev calls : List Op
calls =
    append 5
    ∷ pop_at 99 (negsuc 3)
    ∷ get_slice (some (negsuc 1)) none
    ∷ insert (pos 1) 6
    ∷ reverse_self
    ∷ mul_self 2
    ∷ del_item 99 (pos 8)
    ∷ pop
    ∷ []

set_slice-short_example :
    ((set_slice plain 4 (some (pos 1)) (some (pos 3)) (1 ∷ 2 ∷ []) three).0 ≡ nothing)
    × ((set_slice plain 4 (some (pos 1)) (some (pos 3)) (1 ∷ 2 ∷ []) three).1 4 ≡ 7 ∷ 1 ∷ 9 ∷ [])
unfolding plain-IsRedis
set_slice-short_example =
    set_slice-short plain plain-IsRedis 4 1 1 (1 ∷ 2 ∷ []) three refl (omega arith)

abbrev queue : Queue
queue = record { handle = 6; maxsize = 1; closed = false }

abbrev one_written : Shared Lists
one_written = record {
  client = put 6 (no_lists 6 ++ 30 ∷ []) no_lists;
  pending = [];
  written = 30 ∷ [];
  got = [];
}

one_reach : QueueReach plain queue 2 (opened no_lists) one_written
unfolding Q.not_full Q.qsize Q.send_bytes
one_reach =
    then_step (then_step at_start (tested (opened no_lists) 30 refl (omega arith)))
      (wrote _ [] [] 30 refl)

queue_in_order_example : one_written.got ++ one_written.client 6 ≡ one_written.written
unfolding plain-IsRedis
queue_in_order_example = queue_in_order plain plain-IsRedis queue 2 no_lists refl one_reach

queue_bounded_example : length (one_written.client 6) + length one_written.pending < 3
unfolding plain-IsRedis
queue_bounded_example =
    queue_bounded plain plain-IsRedis queue 2 no_lists (omega arith) refl one_reach

abbrev own : RemoteReference
own = record { managed = false }

-- The creator's reference ends while its copy lives.
abbrev one_left : World
unfolding created set_state drop_ref
one_left = record { resource = drop_ref own (set_state own created.resource); live = 1 }

left_reach : RefReach own created one_left
unfolding created one_left
left_reach = R.then_step (R.then_step R.at_start (copied created (omega arith))) (dropped _ 1 refl)

refcount-live_example :
    (one_left.resource.present ≡ ltb 0 one_left.live)
    × (refcount one_left.resource ≡ (if one_left.live == 0 then pos 1 else pos one_left.live))
refcount-live_example = refcount-live own refl left_reach

-- ===== src/Multiprocessing/Queues/Joined.antt =====
-- When a JoinableQueue can be joined.
use lithops.Base.{
  ℕ, suc, ◌+◌, ◌<◌, ◌≡◌, ◌≢◌, refl, sym, subst, ap, ◌∙◌, Bool, false, Bool-cases, Option-cases, inl,
  inr, [], ◌∷◌, length, length-append, ◌==◌, leb, lt→leb-false, if◌then◌else◌, arith,
}
use lithops.Redis.{Redis, IsRedis}
use lithops.Multiprocessing.{get_value, acquire, release}
use lithops.Multiprocessing.Conditions.{NotIn}
use lithops.Multiprocessing.Conditions.Members.{NotIn-snoc}
use lithops.Multiprocessing.Queues.Defs.{nothing, value_error, put}
use lithops.Multiprocessing.Queues.Joins.{
  JoinableQueue, put_unfinished, tell_if_none, task_done, join, Progress, JoinStep, object_put,
  object_got, task_finished, joined, woken, JoinReach, at_start, then_step,
}
use lithops.Multiprocessing.Queues.Order.{first-rest}
use lithops.Multiprocessing.Queues.Items.{items-wake_all, items-put, items-get_other}

module _ {S : Type 0} (redis : Redis S) (is : IsRedis redis) where
  -- The semaphore counts what is not finished; neither its key nor the list's own is told.
  record IsCounted (j : JoinableQueue) (w : Progress S) : Type 0 where
    counted : length (is.items j.unfinished_tasks.name w.client) + w.finished ≡ w.asked
    told : NotIn j.unfinished_tasks.name (is.items j.cond.notify_handle w.client)
    proper : NotIn j.cond.notify_handle (is.items j.cond.notify_handle w.client)

  module _ (j : JoinableQueue) (apart : j.unfinished_tasks.name ≢ j.cond.notify_handle)
      (off_queue : j.unfinished_tasks.name ≢ j.queue.handle)
      (told_off : j.cond.notify_handle ≢ j.queue.handle) where
    IsCounted-same :
        (w : Progress S) (s : S)
        → is.items j.unfinished_tasks.name s ≡ is.items j.unfinished_tasks.name w.client
        → is.items j.cond.notify_handle s ≡ is.items j.cond.notify_handle w.client
        → IsCounted j w
        → IsCounted j (record w { client = s })
    IsCounted-same w s sem list safe = record {
      counted = omega (arith, ap length sem, safe.counted);
      told = subst (NotIn j.unfinished_tasks.name) (sym list) safe.told;
      proper = subst (NotIn j.cond.notify_handle) (sym list) safe.proper;
    }

    IsCounted-object_put :
        (w : Progress S) (obj : ℕ) (s : S)
        → get_value redis j.unfinished_tasks w.client < j.unfinished_tasks.max_value
        → put_unfinished redis j obj w.client ≡ (nothing, s)
        → IsCounted j w
        → IsCounted j (record w { client = s; asked = suc w.asked })
    unfolding put_unfinished release get_value
    IsCounted-object_put w obj s below e safe = elim (Bool-cases j.queue.closed) [
      | inl closed ↦ absurd (cc (rw (closed, put_unfinished) at e))
      | inr accepts ↦
          let name = j.unfinished_tasks.name in
          let s1 = (put redis j.queue obj w.client).1 in
          let sem = items-put redis is j.queue obj name w.client off_queue in
          let list = items-put redis is j.queue obj j.cond.notify_handle w.client told_off in
          let n = ap length sem in
          let room : leb j.unfinished_tasks.max_value (redis.llen name s1) ≡ false =
            lt→leb-false _ _
              (omega (arith, n, below, is.llen-items name s1, is.llen-items name w.client)) in
          let after = release redis j.unfinished_tasks s1 in
          let passed : put_unfinished redis j obj w.client ≡ (nothing, after) =
            ap (λ (b : Bool). if b then (value_error, w.client) else (nothing, after)) accepts in
          let released : after ≡ redis.rpush name 0 s1 = rw (room, release) refl in
          let same : redis.rpush name 0 s1 ≡ s = sym released ∙ ap (λ r. r.1) (sym passed ∙ e) in
          let grown = is.rpush-items name 0 s1 in
          let one_more = length-append (is.items name s1) (0 ∷ []) in
          let kept = is.rpush_other j.cond.notify_handle name 0 s1 (λ x. apart (sym x)) ∙ list in
          subst (λ x. IsCounted j (record w { client = x; asked = suc w.asked })) same
            (record {
              counted = omega (arith, ap length grown, one_more, n, safe.counted);
              told = subst (NotIn name) (sym kept) safe.told;
              proper = subst (NotIn j.cond.notify_handle) (sym kept) safe.proper;
            })
    ]

    IsCounted-tell_if_none :
        (w : Progress S)
        → IsCounted j w
        → IsCounted j (record w { client = tell_if_none redis j w.client })
    unfolding tell_if_none
    IsCounted-tell_if_none w safe =
        elim (Bool-cases (get_value redis j.unfinished_tasks w.client == 0)) [
          | inr some_left ↦ rw (some_left, tell_if_none) safe
          | inl none_left ↦
              let c = j.cond in
              let name = j.unfinished_tasks.name in
              let sem =
                items-wake_all redis is c name w.client safe.told
                ∙ is.delete_other name c.notify_handle w.client apart in
              let list =
                items-wake_all redis is c c.notify_handle w.client safe.proper
                ∙ is.delete-items c.notify_handle w.client in
              rw (none_left, tell_if_none)
                (record {
                  counted = omega (arith, ap length sem, safe.counted);
                  told = subst (NotIn name) (sym list) tt;
                  proper = subst (NotIn c.notify_handle) (sym list) tt;
                })
        ]

    IsCounted-task_done :
        (w : Progress S) (s : S)
        → task_done redis j w.client ≡ (nothing, s)
        → IsCounted j w
        → IsCounted j (record w { client = s; finished = suc w.finished })
    unfolding task_done acquire
    IsCounted-task_done w s e safe =
        let name = j.unfinished_tasks.name in
        let s1 = (redis.lpop name w.client).1 in
        elim (Option-cases (redis.lpop name w.client).0) [
          | inl none_left ↦ absurd (cc (rw (none_left, task_done, acquire) at e))
          | inr (t, there) ↦
              let same : tell_if_none redis j s1 ≡ s = cc (rw (there, task_done, acquire) at e) in
              let head =
                first-rest (is.items name w.client) (sym (is.lpop-first name w.client) ∙ there) in
              let left = is.lpop-items name w.client in
              let kept = is.lpop_other j.cond.notify_handle name w.client (λ x. apart (sym x)) in
              let w1 : Progress S = record w { client = s1; finished = suc w.finished } in
              subst (λ x. IsCounted j (record w1 { client = x })) same
                (IsCounted-tell_if_none w1 (record {
                  counted = omega (arith, ap length head, ap length left, safe.counted);
                  told = subst (NotIn name) (sym kept) safe.told;
                  proper = subst (NotIn j.cond.notify_handle) (sym kept) safe.proper;
                }))
        ]

    IsCounted-joined :
        (w : Progress S) (handle : ℕ)
        → handle ≢ j.unfinished_tasks.name
        → handle ≢ j.cond.notify_handle
        → IsCounted j w
        → IsCounted j (record w { client = (join redis handle j w.client).1 })
    unfolding join
    IsCounted-joined w handle ne own safe =
        elim (Bool-cases (get_value redis j.unfinished_tasks w.client == 0)) [
          | inl over ↦ rw (over, join) safe
          | inr waits ↦
              let c = j.cond in
              let name = j.unfinished_tasks.name in
              let list = is.rpush-items c.notify_handle handle w.client in
              let handles = is.items c.notify_handle w.client in
              rw (waits, join)
                (record {
                  counted = omega (
                    arith,
                    ap length (is.rpush_other name c.notify_handle handle w.client apart),
                    safe.counted,
                  );
                  told =
                      subst (NotIn name) (sym list) (NotIn-snoc name handle handles safe.told ne);
                  proper =
                      subst (NotIn c.notify_handle) (sym list)
                        (NotIn-snoc c.notify_handle handle handles safe.proper own);
                })
        ]

    IsCounted-JoinStep : {w x : Progress S} → IsCounted j w → JoinStep redis j w x → IsCounted j x
    IsCounted-JoinStep safe (object_put w obj s below e) = IsCounted-object_put w obj s below e safe
    IsCounted-JoinStep safe (object_got w forever reply s e) =
        IsCounted-same w s
          (items-get_other redis is j.queue forever j.unfinished_tasks.name w.client off_queue e)
          (items-get_other redis is j.queue forever j.cond.notify_handle w.client told_off e) safe
    IsCounted-JoinStep safe (task_finished w s e) = IsCounted-task_done w s e safe
    IsCounted-JoinStep safe (joined w handle ne own) = IsCounted-joined w handle ne own safe
    IsCounted-JoinStep safe (woken w handle ne own) =
        IsCounted-same w (redis.lpop handle w.client).1
          (is.lpop_other j.unfinished_tasks.name handle w.client (λ x. ne (sym x)))
          (is.lpop_other j.cond.notify_handle handle w.client (λ x. own (sym x))) safe

    IsCounted-JoinReach : {v w : Progress S} → IsCounted j v → JoinReach redis j v w → IsCounted j w
    IsCounted-JoinReach safe at_start = safe
    IsCounted-JoinReach safe (then_step r step) =
        IsCounted-JoinStep (IsCounted-JoinReach safe r) step

    abbrev pub opened : S → Progress S
    opened s = record { client = s; asked = 0; finished = 0 }

    -- On a server whose commands do as documented, with three keys apart, of which the semaphore's
    -- and the condition's hold nothing at first: processes put and get, report what is done, join and
    -- are woken, in any order, with fewer unfinished than the semaphore's greatest value at each put.
    -- Then a join that does not wait finds that each object put was reported as done.
    pub join_finished :
        (s : S) (handle : ℕ) {w : Progress S} {s' : S}
        → is.items j.unfinished_tasks.name s ≡ []
        → is.items j.cond.notify_handle s ≡ []
        → JoinReach redis j (opened s) w
        → join redis handle j w.client ≡ (false, s')
        → w.finished ≡ w.asked
    unfolding join get_value
    join_finished s handle {w} {s'} no_tasks no_handles r e =
        let first_safe : IsCounted j (opened s) = record {
          counted = omega (arith, ap length no_tasks);
          told = subst (NotIn j.unfinished_tasks.name) (sym no_handles) tt;
          proper = subst (NotIn j.cond.notify_handle) (sym no_handles) tt;
        } in
        let safe = IsCounted-JoinReach first_safe r in
        let n = is.llen-items j.unfinished_tasks.name w.client in
        elim (Bool-cases (get_value redis j.unfinished_tasks w.client == 0)) [
          | inl over ↦
              let zero_left : get_value redis j.unfinished_tasks w.client ≡ 0 = ground arith in
              omega (arith, n, zero_left, safe.counted)
          | inr waits ↦ absurd (cc (rw (waits, join) at e))
        ]

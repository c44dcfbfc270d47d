-- ===== src/Partition/Sharing.antt =====
-- What the threads of `_split` leave in the lists that they share, in whatever order they run.
use lithops.Base.{
  ℕ, ◌+◌, ◌≡◌, refl, ap, Bool, List, [], ◌∷◌, ◌++◌, map, length, length-append, count_if,
  count_if-append, sum, sum-append, arith,
}
use lithops.Partition.Threads.{
  Task, splitting, extended, ended, Pool, start, Step, extend, append, lose, Reach, here, next,
  Finished,
}

module _ {A : Type 0} where
  -- The numbers that threads have yet to write.
  abbrev owed : List (Task A) → ℕ
  owed [] = 0
  owed (extended n ∷ tasks) = n + owed tasks
  owed (splitting mine ∷ tasks) = owed tasks
  owed (ended ∷ tasks) = owed tasks

  owed-append : (xs ys : List (Task A)) → owed (xs ++ ys) ≡ owed xs + owed ys
  owed-append [] ys = omega arith
  owed-append (extended n ∷ xs) ys = omega (arith, owed-append xs ys)
  owed-append (splitting mine ∷ xs) ys = owed-append xs ys
  owed-append (ended ∷ xs) ys = owed-append xs ys

  -- How many partitions that a test accepts are yet to be written.
  abbrev unwritten : (A → Bool) → List (Task A) → ℕ
  unwritten q [] = 0
  unwritten q (splitting mine ∷ tasks) = count_if q mine + unwritten q tasks
  unwritten q (extended n ∷ tasks) = unwritten q tasks
  unwritten q (ended ∷ tasks) = unwritten q tasks

  unwritten-append :
      (q : A → Bool) (xs ys : List (Task A))
      → unwritten q (xs ++ ys) ≡ unwritten q xs + unwritten q ys
  unwritten-append q [] ys = omega arith
  unwritten-append q (splitting mine ∷ xs) ys = omega (arith, unwritten-append q xs ys)
  unwritten-append q (extended n ∷ xs) ys = unwritten-append q xs ys
  unwritten-append q (ended ∷ xs) ys = unwritten-append q xs ys

  abbrev Counted : Pool A → Type 0
  Counted p = length p.partitions ≡ sum p.parts_per_object + owed p.tasks

  Step-Counted : {p p' : Pool A} {lost : List A} → Step p lost p' → Counted p → Counted p'
  Step-Counted (extend p before after mine e) h = omega (
    arith,
    ap owed e,
    owed-append before (splitting mine ∷ after),
    owed-append before (extended (length mine) ∷ after),
    length-append p.partitions mine,
  )
  Step-Counted (append p before after parts e) h = omega (
    arith,
    ap owed e,
    owed-append before (extended parts ∷ after),
    owed-append before (ended ∷ after),
    sum-append p.parts_per_object (parts ∷ []),
  )
  Step-Counted (lose p before after mine e) h = omega (
    arith,
    ap owed e,
    owed-append before (splitting mine ∷ after),
    owed-append before (ended ∷ after),
  )

  Step-unwritten :
      (q : A → Bool) {p p' : Pool A} {lost : List A}
      → Step p lost p'
      → count_if q p.partitions + unwritten q p.tasks
        ≡ count_if q p'.partitions + unwritten q p'.tasks + count_if q lost
  Step-unwritten q (extend p before after mine e) = omega (
    arith,
    ap (unwritten q) e,
    unwritten-append q before (splitting mine ∷ after),
    unwritten-append q before (extended (length mine) ∷ after),
    count_if-append q p.partitions mine,
  )
  Step-unwritten q (append p before after parts e) = omega (
    arith,
    ap (unwritten q) e,
    unwritten-append q before (extended parts ∷ after),
    unwritten-append q before (ended ∷ after),
  )
  Step-unwritten q (lose p before after mine e) = omega (
    arith,
    ap (unwritten q) e,
    unwritten-append q before (splitting mine ∷ after),
    unwritten-append q before (ended ∷ after),
  )

  Reach-Counted : {s p : Pool A} {lost : List A} → Counted s → Reach s lost p → Counted p
  Reach-Counted h here = h
  Reach-Counted h (next r st e) = Step-Counted st (Reach-Counted h r)

  Reach-unwritten :
      (q : A → Bool) {s p : Pool A} {lost : List A}
      → Reach s lost p
      → count_if q s.partitions + unwritten q s.tasks
        ≡ count_if q p.partitions + unwritten q p.tasks + count_if q lost
  Reach-unwritten q here = omega arith
  Reach-unwritten q (next {lost = lost} {more = more} r st e) = omega (
    arith,
    Reach-unwritten q r,
    Step-unwritten q st,
    ap (count_if q) e,
    count_if-append q lost more,
  )

  abbrev pub all_of : List (List A) → List A
  all_of [] = []
  all_of (o ∷ os) = o ++ all_of os

  owed-start : (objects : List (List A)) → owed (map splitting objects) ≡ 0
  owed-start [] = refl
  owed-start (o ∷ os) = owed-start os

  unwritten-start :
      (q : A → Bool) (objects : List (List A))
      → unwritten q (map splitting objects) ≡ count_if q (all_of objects)
  unwritten-start q [] = refl
  unwritten-start q (o ∷ os) = omega (arith, unwritten-start q os, count_if-append q o (all_of os))

  Finished-settled :
      (q : A → Bool) (tasks : List (Task A))
      → Finished tasks
      → (owed tasks ≡ 0) × (unwritten q tasks ≡ 0)
  Finished-settled q [] h = (refl, refl)
  Finished-settled q (splitting mine ∷ tasks) h = absurd h
  Finished-settled q (extended n ∷ tasks) h = absurd h
  Finished-settled q (ended ∷ tasks) h = Finished-settled q tasks h

  -- When all threads have ended, whatever their order, there are as many partitions as
  -- `parts_per_object` adds up to, and each partition of the objects was written or, with a thread
  -- that failed, lost: any test accepts as many of the written and the lost as of all.
  pub threads_conserve :
      (objects : List (List A)) {lost : List A} {p : Pool A} (q : A → Bool)
      → Reach (start objects) lost p
      → Finished p.tasks
      → (length p.partitions ≡ sum p.parts_per_object)
        × (count_if q p.partitions + count_if q lost ≡ count_if q (all_of objects))
  threads_conserve objects {p = p} q r done =
      let (o, u) = Finished-settled q p.tasks done in
      let counted = Reach-Counted (owed_first objects) r in
      let written = Reach-unwritten q r in
      (omega (arith, counted, o), omega (arith, written, u, unwritten-start q objects))
    where
      owed_first : (os : List (List A)) → Counted (start os)
      owed_first os = omega (arith, owed-start os)

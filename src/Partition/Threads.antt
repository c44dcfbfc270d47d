-- ===== src/Partition/Threads.antt =====
-- `ex.map(_split, …)`: threads that share `partitions` and `parts_per_object`.
use lithops.Base.{ℕ, ◌≡◌, List, [], ◌∷◌, ◌++◌, map, length}

-- A thread has its partitions to write, or has written them and not yet their number, or has ended.
pub data Task (A : Type 0) : Type 0 where
  splitting : List A → Task A
  extended : ℕ → Task A
  ended : Task A

pub record Pool (A : Type 0) : Type 0 where
  pub partitions : List A
  pub parts_per_object : List ℕ
  pub tasks : List (Task A)

module _ {A : Type 0} where
  abbrev pub start : List (List A) → Pool A
  start objects = record { partitions = []; parts_per_object = []; tasks = map splitting objects }

  -- One call of a thread, labelled with what it loses. `lose` is an exception in it: nothing reads
  -- the results of `ex.map`, so the exception is dropped, and the thread's partitions with it.
  pub data Step : Pool A → List A → Pool A → Type 0 where
    extend :
        (p : Pool A) (before after : List (Task A)) (mine : List A)
        → p.tasks ≡ before ++ splitting mine ∷ after
        → Step p [] (record {
          partitions = p.partitions ++ mine;
          parts_per_object = p.parts_per_object;
          tasks = before ++ extended (length mine) ∷ after;
        })
    append :
        (p : Pool A) (before after : List (Task A)) (parts : ℕ)
        → p.tasks ≡ before ++ extended parts ∷ after
        → Step p [] (record {
          partitions = p.partitions;
          parts_per_object = p.parts_per_object ++ parts ∷ [];
          tasks = before ++ ended ∷ after;
        })
    lose :
        (p : Pool A) (before after : List (Task A)) (mine : List A)
        → p.tasks ≡ before ++ splitting mine ∷ after
        → Step p mine (record p { tasks = before ++ ended ∷ after })

  pub data Reach (s : Pool A) : List A → Pool A → Type 0 where
    here : Reach s [] s
    next :
        {t u : Pool A} {lost more all : List A}
        → Reach s lost t
        → Step t more u
        → all ≡ lost ++ more
        → Reach s all u

  -- Every thread has ended.
  abbrev pub Finished : List (Task A) → Type 0
  Finished [] = Unit
  Finished (splitting mine ∷ tasks) = ⊥
  Finished (extended n ∷ tasks) = ⊥
  Finished (ended ∷ tasks) = Finished tasks

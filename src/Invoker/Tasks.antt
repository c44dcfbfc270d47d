-- ===== src/Invoker/Tasks.antt =====
-- `_invoke_task` of lithops/invokers.py: the payload of one worker. A key of the data is not empty.
use lithops.Base.{ℕ, Option, none, some, List, [], ◌∷◌, ◌++◌, map, Text, get_elem?, cons?}
use lithops.Executor.{int}
use lithops.Job.{Job}
use lithops.Payload.{Last, Carried, ranges, strings, get_function_data}
use lithops.Invoker.Runs.{call_id_of}

-- [xs[int(call_id)] for call_id in call_ids]
abbrev pub pick {ℓ} : {A : Type ℓ} → List A → List Text → Option (List A)
pick xs [] = some []
pick xs (id ∷ ids) = elim (get_elem? xs (int id)) [ none ↦ none | some x ↦ cons? x (pick xs ids) ]

-- What a payload says of the calls of its worker.
pub record TaskPayload : Type 0 where
  pub call_ids : List Text
  pub carried : Carried

-- `none` is an index out of range, or no list to index.
unfoldable pub task_payload : Job → (call_ids_range : List ℕ) → Option TaskPayload
unfolding call_id_of
task_payload job call_ids_range =
    let ids = map call_id_of call_ids_range in
    elim job.data_key [
      | some key ↦ elim job.data_byte_ranges [
        | none ↦ none
        | some dbrs ↦ elim (pick dbrs ids) [
          | none ↦ none
          | some mine ↦ some (record { call_ids = ids; carried = ranges mine })
        ]
      ]
      | none ↦ elim job.data_byte_strs [
        | none ↦ none
        | some strs ↦ elim (pick strs ids) [
          | none ↦ none
          | some mine ↦ some (record { call_ids = ids; carried = strings mine })
        ]
      ]
    ]

-- What the worker of a task loads; `get_data` is the storage's answer.
unfoldable pub worker_data :
    (Option (ℕ × Last) → Text) → Job → (call_ids_range : List ℕ) → Option (List Text)
unfolding task_payload
worker_data get_data job call_ids_range = elim (task_payload job call_ids_range) [
  | none ↦ none
  | some p ↦ get_function_data get_data p.carried
]

-- The data that the workers of some tasks load, in the order of the tasks.
unfoldable pub workers_data : (List ℕ → Option (List Text)) → List (List ℕ) → Option (List Text)
workers_data load [] = some []
workers_data load (c ∷ cs) = elim (load c) [
  | none ↦ none
  | some mine ↦ elim (workers_data load cs) [ none ↦ none | some rest ↦ some (mine ++ rest) ]
]

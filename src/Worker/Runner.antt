-- ===== src/Worker/Runner.antt =====
-- `JobRunner.run` of lithops/worker/jobrunner.py. Times, memory, metrics and logs are left out; what
-- is pickled stands for its bytes.
use lithops.Base.{ℕ, Option, none, some, List, [], ◌∷◌, Text, length, ltb, if◌then◌else◌}

-- What becomes of the call of the function, with the loading of its data before it: it raises, or
-- returns None, futures, a value by its pickled bytes, or one that cannot be pickled.
pub data Called (E : Type 0) : Type 0 where
  raises : E → Called E
  returns_none : Called E
  returns_futures : List ℕ → Called E
  returns_value : Text → Called E
  returns_unpicklable : E → Called E

-- A line of the stats file that the call status is made of. `failed` is the flag `exception` with
-- the `exc_info`.
pub data Stat (E : Type 0) : Type 0 where
  func_result_size : ℕ → Stat E
  new_futures : List ℕ → Stat E
  result : Text → Stat E
  failed : E → Stat E

pub record Ran (E : Type 0) : Type 0 where
  pub stats : List (Stat E)
  -- `pickled_output`, if it goes to the storage.
  pub output : Option Text

-- 8KB
abbrev pub max_result_in_status : ℕ
max_result_in_status = 8192

module _ {E : Type 0} where
  -- The `try` and the `except`.
  unfoldable pub run_function : Called E → Ran E
  run_function (raises e) = record { stats = failed e ∷ []; output = none }
  run_function returns_none = record { stats = func_result_size 0 ∷ []; output = none }
  run_function (returns_futures fs) = record {
    stats = func_result_size 0 ∷ new_futures fs ∷ [];
    output = none;
  }
  run_function (returns_value v) =
      let size = length v in
      if ltb size max_result_in_status
      then record {
        stats = func_result_size 0 ∷ func_result_size size ∷ result v ∷ [];
        output = none;
      }
      else record { stats = func_result_size 0 ∷ func_result_size size ∷ []; output = some v }
  run_function (returns_unpicklable e) = record {
    stats = func_result_size 0 ∷ failed e ∷ [];
    output = none;
  }

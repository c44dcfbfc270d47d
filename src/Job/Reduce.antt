-- ===== src/Job/Reduce.antt =====
-- `create_reduce_job`: the futures of the map job that each reducer takes.
use lithops.Base.{ℕ, ◌+◌, Bool, Option, none, some, List, [], ◌∷◌, take, drop, if◌then◌else◌}

module _ {A : Type 0} where
  -- The loop over parts_per_object.
  unfoldable pub slices : ℕ → List ℕ → List A → List (List A)
  slices prev_total_partitions [] map_futures = []
  slices prev_total_partitions (total_partitions ∷ parts_per_object) map_futures =
      take total_partitions (drop prev_total_partitions map_futures)
      ∷ slices (prev_total_partitions + total_partitions) parts_per_object map_futures

  -- The iterdata of the reduce job; `parts_per_object` is absent if the map job has no such field.
  unfoldable pub reduce_iterdata : Option (List ℕ) → Bool → List A → List (List A)
  unfolding slices
  reduce_iterdata none obj_reduce_by_key map_futures = map_futures ∷ []
  reduce_iterdata (some parts_per_object) obj_reduce_by_key map_futures =
      if obj_reduce_by_key then slices 0 parts_per_object map_futures else map_futures ∷ []

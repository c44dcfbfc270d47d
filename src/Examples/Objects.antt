-- ===== src/Examples/Objects.antt =====
-- Objects of lithops/job/partitioner.py and of lithops/utils.py.
use lithops.Base.{
  ℕ, zero, suc, ◌+◌, ◌-◌, ◌%◌, ◌≤◌, ◌<◌, ◌≡◌, refl, true, false, some, List, [], ◌∷◌, Text, codes,
  length, sum, count_if, ltb, ◌==◌, if◌then◌else◌, arith,
}
use lithops.Partition.{
  splitting, extended, ended, Chunk, split_object, size_for_number, ok, backend_alias,
  split_object_url, Pool, Reach, start, extend, append, lose, here, next,
}
use lithops.Partition.Coverage.{covers, split_object-covers}
use lithops.Partition.Number.{chunk_number_bounds}
use lithops.Partition.Sharing.{threads_conserve, all_of}
use lithops.Partition.Urls.{split_object_url-join}
use lithops.Stream.{Fetch}
use lithops.Stream.Rows.{RowsFit, chunk_texts, parts_give_whole}

-- "a\nb\n\n"
abbrev rows : Text
rows = 97 ∷ 10 ∷ 98 ∷ 10 ∷ 10 ∷ []

abbrev one_file : Fetch
one_file = record {
  get_object = λ backend bucket key range. [];
  get_url = λ url range. [];
  file = λ path. rows;
}

rows_fit : RowsFit 10 rows
rows_fit zero h = (1, refl, omega arith)
rows_fit (suc zero) h = (0, refl, omega arith)
rows_fit (suc (suc zero)) h = (1, refl, omega arith)
rows_fit (suc (suc (suc zero))) h = (0, refl, omega arith)
rows_fit (suc (suc (suc (suc zero)))) h = (0, refl, omega arith)
rows_fit (suc (suc (suc (suc (suc i))))) h = absurd (omega arith)

parts_give_whole_example :
    (l : List Chunk) × (split_object 5 true 3 ≡ some l)
    × (chunk_texts {P = ℕ} one_file (codes "rows.csv") 0 2 10 l ≡ rows)
parts_give_whole_example =
    parts_give_whole {P = ℕ} one_file (codes "rows.csv") 0 2 10 3 (omega arith) (omega arith)
      rows_fit (λ e. absurd (omega arith))

split_object-covers_example :
    (l : List Chunk) × (split_object 7 false 3 ≡ some l)
    × ((b : ℕ) → b + 1 < 7 → count_if (covers b) l ≡ 1)
    × (count_if (covers (7 - 1)) l ≡ (if (7 - 1) % 3 == 0 then 0 else 1))
split_object-covers_example = split_object-covers 7 3 (omega arith) (omega arith)

chunk_number_bounds_example :
    (l : List Chunk) × (split_object 10 true (size_for_number 10 4) ≡ some l)
    × (length l ≤ 4)
    × (0 < length l)
chunk_number_bounds_example = chunk_number_bounds 10 4 true (omega arith) (omega arith)

-- Two objects; the second is written, the first is lost.
abbrev two_objects : List (List ℕ)
two_objects = (1 ∷ 2 ∷ []) ∷ (3 ∷ []) ∷ []

abbrev second_written : Pool ℕ
second_written = record {
  partitions = 3 ∷ [];
  parts_per_object = [];
  tasks = splitting (1 ∷ 2 ∷ []) ∷ extended 1 ∷ [];
}

abbrev first_lost : Pool ℕ
first_lost = record { partitions = 3 ∷ []; parts_per_object = []; tasks = ended ∷ extended 1 ∷ [] }

abbrev all_ended : Pool ℕ
all_ended = record { partitions = 3 ∷ []; parts_per_object = 1 ∷ []; tasks = ended ∷ ended ∷ [] }

run : Reach (start two_objects) (1 ∷ 2 ∷ []) all_ended
run =
    next
      (next
        (next here (extend (start two_objects) (splitting (1 ∷ 2 ∷ []) ∷ []) [] (3 ∷ []) refl) refl)
        (lose second_written [] (extended 1 ∷ []) (1 ∷ 2 ∷ []) refl) refl)
      (append first_lost (ended ∷ []) [] 1 refl) refl

threads_conserve_example :
    (length all_ended.partitions ≡ sum all_ended.parts_per_object)
    × (count_if (ltb 1) all_ended.partitions + count_if (ltb 1) (1 ∷ 2 ∷ [])
        ≡ count_if (ltb 1) (all_of two_objects))
threads_conserve_example = threads_conserve two_objects (ltb 1) run tt

split_object_url-join_example :
    split_object_url (codes "s3://b/p/k")
    ≡ ok (record {
      sb = some (backend_alias (codes "s3"));
      bucket = codes "b";
      prefix = codes "p";
      obj_name = codes "k";
    })
split_object_url-join_example =
    split_object_url-join (codes "s3") (codes "b") (codes "p") b'k' [] (refl, (refl, tt)) (refl, tt)
      (refl, tt) (refl, (refl, (refl, (refl, (refl, tt)))))

-- A store that holds the objects "k", of seven bytes, whatever is asked for.

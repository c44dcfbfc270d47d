-- ===== src/Partition/Split.antt =====
-- The chunk size of an object and the `while size < obj_size - 1` loop of the three `_split`.
use lithops.Base.{
  ℕ, zero, suc, ◌+◌, ◌-◌, ◌*◌, ◌/◌, ◌%◌, Bool, true, false, not, Option, none, some, List, [], ltb,
  leb, ◌==◌, if◌then◌else◌, cons?,
}

-- CHUNK_THRESHOLD, 128 KB.
abbrev pub chunk_threshold : ℕ
chunk_threshold = 131072

-- What the loop writes into `partition['obj']` beside the object itself.
pub record Chunk : Type 0 where
  pub data_byte_range : Option (ℕ × ℕ)
  pub chunk_size : ℕ
  pub part : ℕ

-- `round(num / den)`: to the nearest integer, a tie to the even one. The quotient is exact here;
-- the source's is a float, which is the same as long as the numbers stay below 2 ** 52.
unfoldable pub round_ratio : ℕ → ℕ → ℕ
round_ratio num den =
    let q = num / den in
    let twice = 2 * (num % den) in
    if ltb twice den then q else if ltb den twice then q + 1 else if q % 2 == 0 then q else q + 1

-- obj_size // chunk_number + round(obj_size % chunk_number / chunk_number + 0.5)
unfoldable pub size_for_number : ℕ → ℕ → ℕ
unfolding round_ratio
size_for_number obj_size chunk_number =
    obj_size / chunk_number
    + round_ratio (2 * (obj_size % chunk_number) + chunk_number) (2 * chunk_number)

-- `brange` and the new `obj_chunk_size` of one round of the loop.
unfoldable pub chunk_at : ℕ → Bool → ℕ → ℕ → Option (ℕ × ℕ) × ℕ
chunk_at obj_size newline obj_chunk_size size =
    if leb obj_size obj_chunk_size
    then (none, obj_size)
    else if not newline
    then (some (size, size + obj_chunk_size - 1), obj_chunk_size)
    else if ltb (size + obj_chunk_size) obj_size
    then (
      some (if ltb 0 size then size - 1 else 0, size + obj_chunk_size + chunk_threshold),
      obj_chunk_size,
    )
    else (some (size - 1, obj_size - 1), obj_size - size)

-- The loop, on fuel; `none` means that the fuel ran out. `parts` is `obj_total_partitions`.
unfoldable pub split_loop : ℕ → ℕ → Bool → ℕ → ℕ → ℕ → Option (List Chunk)
unfolding chunk_at
split_loop zero obj_size newline obj_chunk_size size parts = none
split_loop (suc fuel) obj_size newline obj_chunk_size size parts = elim (ltb size (obj_size - 1)) [
  | true ↦
      let (brange, chunk) = chunk_at obj_size newline obj_chunk_size size in
      cons? (record { data_byte_range = brange; chunk_size = chunk; part = parts + 1 })
        (split_loop fuel obj_size newline chunk (size + chunk) (parts + 1))
  | false ↦ some []
]

-- A chunk is at least one byte long, so there are at most `obj_size` rounds and the last test.
unfoldable pub split_object : ℕ → Bool → ℕ → Option (List Chunk)
unfolding split_loop
split_object obj_size newline obj_chunk_size =
    split_loop (obj_size + 1) obj_size newline obj_chunk_size 0 0

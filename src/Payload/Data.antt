-- ===== src/Payload/Data.antt =====
-- One byte string for the data of all calls, and what a worker cuts out of it.
use lithops.Base.{
  ℕ, ◌+◌, ◌-◌, Option, none, some, List, [], ◌∷◌, ◌++◌, Text, take, drop, length, ◌==◌,
  if◌then◌else◌,
}

-- The second part of a range. `pos + datum_len - 1` is -1 for an empty datum at the start.
pub data Last : Type 0 where
  at : ℕ → Last
  minus_one : Last

abbrev pub last_byte : ℕ → Last
last_byte end = if end == 0 then minus_one else at (end - 1)

-- dbr[1] - dbr[0] + 1; the range of a datum never ends more than one byte before its start.
abbrev pub range_length : ℕ × Last → ℕ
range_length (first, at last) = last + 1 - first
range_length (first, minus_one) = 0

unfoldable pub ranges_from : ℕ → List Text → List (ℕ × Last)
ranges_from pos [] = []
ranges_from pos (datum ∷ data_strs) =
    (pos, last_byte (pos + length datum)) ∷ ranges_from (pos + length datum) data_strs

abbrev pub join : List Text → Text
join [] = []
join (s ∷ ss) = s ++ join ss

unfoldable pub agg_data : List Text → Text × List (ℕ × Last)
unfolding ranges_from
agg_data data_strs = (join data_strs, ranges_from 0 data_strs)

-- job.data_byte_ranges[-1][1], of a list that begins with r.
abbrev pub last_range : ℕ × Last → List (ℕ × Last) → ℕ × Last
last_range r [] = r
last_range r (r' ∷ rs) = last_range r' rs

unfoldable pub cut_ranges : Text → List (ℕ × Last) → List Text
cut_ranges data_obj [] = []
cut_ranges data_obj (dbr ∷ dbrs) =
    take (range_length dbr) data_obj ∷ cut_ranges (drop (range_length dbr) data_obj) dbrs

-- How the payload carries the data: under a key with ranges, under a key alone, or itself.
pub data Carried : Type 0 where
  ranges : List (ℕ × Last) → Carried
  whole : Carried
  strings : List Text → Carried

-- `get_data` is the storage's answer to a request with a `Range` header or without one. An empty
-- list of ranges fails at its first element: `none`.
unfoldable pub get_function_data : (Option (ℕ × Last) → Text) → Carried → Option (List Text)
unfolding cut_ranges
get_function_data get_data (ranges []) = none
get_function_data get_data (ranges (r ∷ rs)) =
    some (cut_ranges (get_data (some (r.0, (last_range r rs).1))) (r ∷ rs))
get_function_data get_data whole = some (get_data none ∷ [])
get_function_data get_data (strings data_byte_strs) = some data_byte_strs

-- ===== src/Partition/Local.antt =====
-- `_split_objects_from_urls` and `_split_objects_from_paths`: what one thread's `_split` computes,
-- and the list of files that the second one first makes.
use lithops.Base.{
  ℕ, Bool, false, Option, none, some, List, [], ◌∷◌, ◌++◌, Text, text_eq, ends_with, or_zero, ◌==◌,
  if◌then◌else◌, ◌||◌, not,
}
use lithops.Partition.Split.{Chunk, size_for_number, split_object}
use lithops.Partition.Objects.{url_object, local_object, Entry, Partition, to_partitions, given}

-- The user's options. `None` and 0 are both false to `if chunk_number`, so 0 stands for `None`.
pub record Chunking : Type 0 where
  pub obj_chunk_size : ℕ
  pub obj_chunk_number : ℕ
  pub obj_newline : Option Text

-- The headers of `requests.head` that `_split` reads.
pub record UrlHead : Type 0 where
  pub content_length : Option ℕ
  pub accept_ranges : Bool

-- An object of unknown or no size counts as one byte: the pair is (obj_size, obj_chunk_size).
unfoldable pub sizes_of : Chunking → ℕ → ℕ × ℕ
unfolding size_for_number
sizes_of opts obj_size =
    if obj_size == 0
    then (1, 1)
    else if not (opts.obj_chunk_number == 0)
    then (obj_size, size_for_number obj_size opts.obj_chunk_number)
    else if not (opts.obj_chunk_size == 0)
    then (obj_size, opts.obj_chunk_size)
    else (obj_size, obj_size)

-- A server that takes no ranges gets one request for the whole object.
unfoldable pub url_chunks : Chunking → UrlHead → Option (List Chunk)
unfolding sizes_of split_object
url_chunks opts head =
    let (obj_size, obj_chunk_size) = sizes_of opts (or_zero head.content_length) in
    split_object obj_size (given opts.obj_newline)
      (if head.accept_ranges then obj_chunk_size else obj_size)

unfoldable pub path_chunks : Chunking → ℕ → Option (List Chunk)
unfolding sizes_of split_object
path_chunks opts st_size =
    let (obj_size, obj_chunk_size) = sizes_of opts st_size in
    split_object obj_size (given opts.obj_newline) obj_chunk_size

module _ {P : Type 0} (opts : Chunking) where
  -- What a thread adds to `partitions`, `none` only if the loop's fuel does not suffice.
  unfoldable pub split_url : (Text → UrlHead) → Entry P → Option (List (Partition P))
  unfolding url_chunks
  split_url head entry = elim (url_chunks opts (head entry.obj)) [
    | none ↦ none
    | some chunks ↦ some (to_partitions (url_object entry.obj) opts.obj_newline entry.params chunks)
  ]

  unfoldable pub split_path : (Text → ℕ) → Entry P → Option (List (Partition P))
  unfolding path_chunks
  split_path st_size entry = elim (path_chunks opts (st_size entry.obj)) [
    | none ↦ none
    | some chunks ↦
        some (to_partitions (local_object entry.obj) opts.obj_newline entry.params chunks)
  ]

-- What the paths code asks of the file system.
pub record FileSystem : Type 0 where
  pub is_dir : Text → Bool
  pub is_file : Text → Bool
  pub listdir : Text → List Text

-- os.path.join, for a file name that does not begin with a slash.
abbrev pub path_join : Text → Text → Text
path_join [] name = name
path_join (c ∷ path) name =
    if ends_with b'/' (c ∷ path) then (c ∷ path) ++ name else (c ∷ path) ++ b'/' ∷ name

abbrev pub in_texts : Text → List Text → Bool
in_texts t [] = false
in_texts t (x ∷ xs) = text_eq t x || in_texts t xs

module _ {P : Type 0} (fs : FileSystem) where
  -- The files of one directory that are not in `files` yet.
  unfoldable pub add_found : Text → P → List Text → List Text → List Text × List (Entry P)
  add_found path params files [] = (files, [])
  add_found path params files (filename ∷ found) =
      let full_path = path_join path filename in
      let known = in_texts full_path files || not (fs.is_file full_path) in
      let (files', entries) =
        add_found path params (if known then files else full_path ∷ files) found in
      (files', if known then entries else (record { obj = full_path; params = params }) ∷ entries)

  unfoldable pub add_entry : Entry P → List Text → List Text × List (Entry P)
  unfolding add_found
  add_entry elem files =
      if fs.is_dir elem.obj
      then add_found elem.obj elem.params files (fs.listdir elem.obj)
      else if fs.is_file elem.obj
      then if in_texts elem.obj files then (files, []) else (elem.obj ∷ files, elem ∷ [])
      else (files, [])

  -- `new_map_func_args_list`: each file once, a directory replaced by its files.
  unfoldable pub expand_paths : List Text → List (Entry P) → List (Entry P)
  unfolding add_entry
  expand_paths files [] = []
  expand_paths files (elem ∷ elems) =
      let (files', entries) = add_entry elem files in entries ++ expand_paths files' elems

-- ===== src/Stream/Load.antt =====
-- `_load_object`: the bytes of the range, behind the wrapper that the newline asks for.
use lithops.Base.{ℕ, ◌+◌, ◌-◌, Option, none, some, Text, take, drop, ltb, if◌then◌else◌}
use lithops.Partition.{CloudObject, object, url_object, local_object, Partition}
use lithops.Stream.Body.{Body, open_body, read, Part, open_part, part_read}

pub data DataStream : Type 0 where
  plain : Text → DataStream
  body : Body → DataStream
  part : Part → DataStream

-- Where the bytes come from: `get_object` of a store, a GET request, each with the range that goes
-- into the `Range` header, and the contents of a file.
pub record Fetch : Type 0 where
  pub get_object : (backend bucket key : Text) → Option (ℕ × ℕ) → Text
  pub get_url : Text → Option (ℕ × ℕ) → Text
  pub file : Text → Text

-- f.seek(first); f.read(last - first + 1), or all of it.
abbrev pub read_range : Option (ℕ × ℕ) → Text → Text
read_range none content = content
read_range (some (first, last)) content = take (last - first + 1) (drop first content)

abbrev fetch_bytes : Fetch → CloudObject → Option (ℕ × ℕ) → Text
fetch_bytes fetch (object backend bucket key) range = fetch.get_object backend bucket key range
fetch_bytes fetch (url_object url) range = fetch.get_url url range
fetch_bytes fetch (local_object path) range = read_range range (fetch.file path)

-- `obj.data_stream` by the range and the newline.
unfoldable pub wrap : Option (ℕ × ℕ) → Option Text → ℕ → Text → DataStream
wrap none newline chunk_size stream = plain stream
wrap (some range) none chunk_size stream = body (open_body stream chunk_size)
wrap (some range) (some newline) chunk_size stream =
    part (open_part stream chunk_size range newline)

-- The range that the function sees: without the bytes that were read beyond the chunk.
unfoldable pub seen_range : Option (ℕ × ℕ) → ℕ → ℕ × ℕ
seen_range none chunk_size = (0, chunk_size - 1)
seen_range (some (first, last)) chunk_size =
    if ltb chunk_size (last - first) then (first, first + chunk_size - 1) else (first, last)

unfoldable pub load_object : {P : Type 0} → Fetch → Partition P → DataStream × (ℕ × ℕ)
unfolding wrap seen_range
load_object fetch p =
    let chunk = p.chunk in
    (
      wrap chunk.data_byte_range p.newline chunk.chunk_size
          (fetch_bytes fetch p.obj chunk.data_byte_range),
      seen_range chunk.data_byte_range chunk.chunk_size,
    )

-- `obj.data_stream.read()` in the function of the user.
unfoldable pub read_all : DataStream → Text
read_all (plain stream) = stream
read_all (body b) = (read none b).0
read_all (part p) = (part_read none p).0

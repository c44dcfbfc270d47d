-- ===== src/Stream/Body.antt =====
-- The two wrappers. The stream below one is the list of the bytes that it still has to give, as an
-- `io.BytesIO` has; each method returns its bytes and the object after it.
use lithops.Base.{
  ℕ, suc, ◌+◌, ◌-◌, Bool, true, false, not, ◌&&◌, Option, none, some, [], ◌∷◌, Text, starts_with,
  text_eq, take, drop, length, ltb, leb, ◌==◌, if◌then◌else◌,
}

-- bytes.find: the first position of a pattern; `none` stands for -1.
abbrev pub next : Option ℕ → Option ℕ
next none = none
next (some n) = some (suc n)

abbrev pub find : Text → Text → Option ℕ
find pat [] = if starts_with pat [] then some 0 else none
find pat (x ∷ s) = let rest = next (find pat s) in if starts_with pat (x ∷ s) then some 0 else rest

-- sb.read(n) and sb.readline(); the latter knows no newline but b'\n'.
abbrev pub read_bytes : Option ℕ → Text → Text × Text
read_bytes none s = (s, [])
read_bytes (some n) s = (take n s, drop n s)

abbrev pub read_line : Text → Text × Text
read_line s = elim (find (10 ∷ []) s) [ none ↦ (s, []) | some n ↦ (take (suc n) s, drop (suc n) s) ]

pub record Body : Type 0 where
  pub sb : Text
  pub pos : ℕ
  pub size : ℕ

-- WrappedStreamingBody.
unfoldable pub open_body : Text → ℕ → Body
open_body sb size = record { sb = sb; pos = 0; size = size }

unfoldable pub read : Option ℕ → Body → Text × Body
read n b =
    let (retval, rest) = read_bytes n b.sb in
    (retval, record b { sb = rest; pos = b.pos + length retval })

unfoldable pub readline : Body → Text × Body
readline b =
    let (retval, rest) = read_line b.sb in
    (retval, record b { sb = rest; pos = b.pos + length retval })

-- `whence` is 0, 1 or 2; `none` is the exception for an offset from the end. Offsets are natural
-- numbers, and any other `whence` leaves the position, as 0 does.
unfoldable pub seek : ℕ → ℕ → Body → Option (ℕ × Body)
seek offset whence b =
    if whence == 2
    then (if offset == 0 then some (b.size, record b { pos = b.size }) else none)
    else if whence == 1
    then (let target = if ltb b.size (b.pos + offset) then b.size else b.pos + offset in
        some (target, record b { pos = target }))
    else some (b.pos, b)

-- WrappedStreamingBodyPartition. `first_byte` is [] for `None` and for no byte, which Python's `not`
-- takes for the same.
pub record Part : Type 0 where
  pub sb : Text
  pub pos : ℕ
  pub size : ℕ
  pub newline_char : Text
  pub plusbytes : ℕ
  pub first_byte : Text
  pub eof : Bool
  pub first_read : Bool

unfoldable pub open_part : Text → ℕ → ℕ × ℕ → Text → Part
open_part sb size (first, last) newline = record {
  sb = sb;
  pos = 0;
  size = size;
  newline_char = newline;
  plusbytes = if first == 0 then 0 else 1;
  first_byte = [];
  eof = false;
  first_read = true;
}

abbrev pub is_empty : Text → Bool
is_empty [] = true
is_empty (x ∷ s) = false

-- The byte of the previous chunk, read once.
abbrev pub take_first : Part → Part
take_first p =
    if is_empty p.first_byte && (p.plusbytes == 1)
    then record p { first_byte = take 1 p.sb; sb = drop 1 p.sb }
    else p

-- `find(…) + 1`, and 0 for -1.
abbrev pub after_row : Option ℕ → ℕ
after_row none = 0
after_row (some n) = suc n

-- `current_end_pos + last_byte_pos`. The position before a read is below the size, which is at least
-- 1, so `current_end_pos` is at least 1 and the subtractions are exact.
abbrev pub row_end : ℕ → Option ℕ → ℕ
row_end current_end none = current_end - 1
row_end current_end (some n) = current_end + n

-- What `read` does behind the test of `_eof` and the reading of the first byte.
unfoldable pub read_rows : Option ℕ → Part → Text × Part
read_rows n p =
    let (retval, rest) = read_bytes n p.sb in
    let pos = p.pos + length retval in
    let cut_row =
      p.first_read && (not (is_empty p.first_byte) && not (text_eq p.first_byte p.newline_char)) in
    let first_row_start = if cut_row then after_row (find p.newline_char retval) else 0 in
    let at_end = leb p.size pos in
    let current_end = length retval - (pos - p.size) in
    let last_row_end =
      if at_end
      then row_end current_end (find p.newline_char (drop (current_end - 1) retval))
      else length retval in
    (
      drop first_row_start (take last_row_end retval),
      record p {
        sb = rest;
        pos = pos;
        first_read = if cut_row then false else p.first_read;
        eof = at_end;
      },
    )

unfoldable pub part_read : Option ℕ → Part → Text × Part
unfolding read_rows
part_read n p = if p.eof then ([], p) else read_rows n (take_first p)

-- A first row that is cut is skipped, and its bytes are not counted in `pos`.
abbrev pub skip_cut_row : Part → Part
skip_cut_row p =
    let q = take_first p in
    if is_empty p.first_byte && (p.plusbytes == 1)
    then (if text_eq q.first_byte q.newline_char then q else record q { sb = (read_line q.sb).1 })
    else p

unfoldable pub part_readline : Part → Text × Part
part_readline p =
    if p.eof
    then ([], p)
    else (let q = skip_cut_row p in
        let (retval, rest) = read_line q.sb in
        let pos = q.pos + length retval in
        (retval, record q { sb = rest; pos = pos; eof = leb q.size pos }))

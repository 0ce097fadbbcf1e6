-- ===== src/Storage/Segment/Header.antt =====
-- `ReadSegmentHeader` of storage/segment.go. The reader is the list of the bytes that it has left.
pub mod Steps
pub mod Agrees
use uniqcol.Common.{
  Bytes, List, Result, [], bytes_eq, drop, fail_if, get_or, if◌then◌else◌, length, ltb, not, ok,
  or_fail, panic, suc, take, zero, ℕ, ◌&&◌, ◌++◌, ◌==◌, ◌>>=◌, ◌>>◌, ◌∷◌,
}
use uniqcol.Storage.Segment.{
  Error, Part, bad_magic, flags_len_zero, unsupported_version, unknown_wire_type, truncated, magic,
  flag_has_pk_name, has_flag, wire_to_column_type,
}
use uniqcol.Storage.Types.{Schema, Column}
use uniqcol.Storage.Codec.{max_alloc}
use uniqcol.Binary.{uvarint, uint_le}

-- `make([]byte, n)`.
unfoldable pub make_bytes : ℕ → Result Error (Unit {0})
make_bytes n = if ltb max_alloc n then panic else ok tt

-- A length, the buffer for it, and `io.ReadFull`.
unfoldable pub read_prefixed : Part → Part → Bytes → Result Error (Bytes × Bytes)
unfolding make_bytes
read_prefixed at_length at_bytes buf = do
  (n, rest) ← or_fail (uvarint buf) (truncated at_length)
  make_bytes n
  fail_if (ltb (length rest) n) (truncated at_bytes)
  ok (take n rest, drop n rest)

unfoldable pub read_pk_name : ℕ → Bytes → Result Error (Bytes × Bytes)
unfolding read_prefixed
read_pk_name flags buf =
    if has_flag flags flag_has_pk_name
    then read_prefixed Part.pk_name_len Part.pk_name buf
    else ok ([], buf)

-- The flags block of version 2: the name of the key and what is left.
unfoldable pub read_flags : ℕ → Bytes → Result Error (Bytes × Bytes)
unfolding make_bytes read_pk_name
read_flags version buf =
    if version == 2
    then (do
      (n, rest) ← or_fail (uvarint buf) (truncated Part.flags_len)
      fail_if (n == 0) flags_len_zero
      make_bytes n
      fail_if (ltb (length rest) n) (truncated Part.flags_bytes)
      read_pk_name (get_or rest 0 0) (drop n rest))
    else ok ([], buf)

-- `io.CopyN` of `int64(n)` bytes: a negative number, from 2 ^ 63 on, skips nothing.
unfoldable pub skip_payload : ℕ → Bytes → Result Error Bytes
skip_payload n buf =
    if ltb n 0x8000_0000_0000_0000
    then (do fail_if (ltb (length buf) n) (truncated Part.payload); ok (drop n buf))
    else ok buf

-- One round of the loop over the columns; the encoding is not looked at.
unfoldable pub read_header_column : Bytes → Result Error (Column × Bytes)
unfolding read_prefixed skip_payload
read_header_column buf = do
  (name, rest) ← read_prefixed Part.column_name_len Part.column_name buf
  fail_if (ltb (length rest) 2) (truncated Part.tags)
  t ← or_fail (wire_to_column_type (get_or rest 0 0)) (unknown_wire_type (get_or rest 0 0))
  (n, rest') ← or_fail (uvarint (drop 2 rest)) (truncated Part.payload_len)
  rest'' ← skip_payload n rest'
  ok (record { name = name; type = t }, rest'')

unfoldable pub read_header_columns : ℕ → Bytes → List Column → Result Error (List Column)
unfolding read_header_column
read_header_columns zero buf columns = ok columns
read_header_columns (suc n) buf columns = do
  (column, rest) ← read_header_column buf
  read_header_columns n rest (columns ++ column ∷ [])

unfoldable pub read_segment_header : Bytes → Result Error (Schema × ℕ)
unfolding read_flags read_header_columns
read_segment_header buf = do
  fail_if (ltb (length buf) 16) (truncated Part.header)
  fail_if (not (bytes_eq (take 4 buf) magic)) bad_magic
  let version = uint_le (take 2 (drop 4 buf))
  fail_if (not (version == 1) && not (version == 2)) (unsupported_version version)
  (name, rest) ← read_flags version (drop 16 buf)
  columns ← read_header_columns (uint_le (take 2 (drop 6 buf))) rest []
  ok (record { pk = name; columns = columns }, uint_le (take 8 (drop 8 buf)))

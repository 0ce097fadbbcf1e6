-- ===== src/Storage/Segment/Parse.antt =====
-- `parseSegment`.
pub mod Steps
pub mod Frame
use uniqcol.Common.{
  Bytes, List, Option, Result, [], bytes_eq, drop, fail_if, get_or, if◌then◌else◌, length, ltb,
  map_err, none, not, ok, or_fail, some, suc, take, zero, ℕ, ◌&&◌, ◌++◌, ◌==◌, ◌>>=◌, ◌>>◌, ◌∷◌,
}
use uniqcol.Storage.Segment.{
  Error, Part, bad_magic, flags_len_zero, bad_bloom_magic, unsupported_version, unknown_wire_type,
  unknown_encoding, unsupported_bloom_version, truncated,
}
use uniqcol.Storage.Types.{Column}
use uniqcol.Storage.Segment.{
  Part, magic, bloom_magic, flag_has_pk_name, flag_has_bloom, has_flag, wire_to_column_type,
  wire_to_encoding, ColumnBlock, Segment,
}
use uniqcol.Bloom.Wire.{unmarshal_binary}
use uniqcol.Bloom.Filter.{Filter}
use uniqcol.Binary.{uvarint, uint_le}

-- A length and that many bytes, with the parts that may be cut off.
unfoldable pub take_prefixed : Part → Part → Bytes → Result Error (Bytes × Bytes)
take_prefixed at_length at_bytes buf = do
  (n, rest) ← or_fail (uvarint buf) (truncated at_length)
  fail_if (ltb (length rest) n) (truncated at_bytes)
  ok (take n rest, drop n rest)

-- The name of the key, if the flag is set.
unfoldable pub parse_pk_name : ℕ → Bytes → Result Error (Bytes × Bytes)
parse_pk_name flags buf =
    if has_flag flags flag_has_pk_name
    then take_prefixed Part.pk_name_len Part.pk_name buf
    else ok ([], buf)

-- The flags block of version 2: the flags, the name of the key and what is left.
unfoldable pub parse_flags : ℕ → Bytes → Result Error (ℕ × Bytes × Bytes)
parse_flags version buf =
    if version == 2
    then (do
      (n, rest) ← or_fail (uvarint buf) (truncated Part.flags_len)
      fail_if (n == 0) flags_len_zero
      fail_if (ltb (length rest) n) (truncated Part.flags_bytes)
      let flags = get_or rest 0 0
      (name, rest') ← parse_pk_name flags (drop n rest)
      ok (flags, name, rest'))
    else ok (0, [], buf)

-- One round of the loop over the columns.
unfoldable pub parse_column : Bytes → Result Error (Column × ColumnBlock × Bytes)
parse_column buf = do
  (name, rest) ← take_prefixed Part.column_name_len Part.column_name buf
  fail_if (ltb (length rest) 2) (truncated Part.tags)
  let wire = get_or rest 0 0
  let enc = get_or rest 1 0
  t ← or_fail (wire_to_column_type wire) (unknown_wire_type wire)
  encoding ← or_fail (wire_to_encoding enc) (unknown_encoding enc)
  (payload, rest') ← take_prefixed Part.payload_len Part.payload (drop 2 rest)
  ok (record { name = name; type = t }, record { encoding = encoding; payload = payload }, rest')

unfoldable pub parse_columns :
    ℕ
    → Bytes
    → List Column
    → List (Bytes × ColumnBlock)
    → Result Error (List Column × List (Bytes × ColumnBlock) × Bytes)
parse_columns zero buf columns blocks = ok (columns, blocks, buf)
parse_columns (suc n) buf columns blocks = do
  (column, block, rest) ← parse_column buf
  parse_columns n rest (columns ++ column ∷ []) ((column.name, block) ∷ blocks)

-- The trailer, if the version and the flags have one. What follows it is not looked at.
unfoldable pub parse_bloom : ℕ → ℕ → Bytes → Result Error (Option Filter)
parse_bloom version flags buf =
    if version == 2 && has_flag flags flag_has_bloom
    then (do
      fail_if (ltb (length buf) 6) (truncated Part.bloom_header)
      fail_if (not (bytes_eq (take 4 buf) bloom_magic)) bad_bloom_magic
      let bloom_version = uint_le (take 2 (drop 4 buf))
      fail_if (not (bloom_version == 1)) (unsupported_bloom_version bloom_version)
      f ← map_err Error.bloom (unmarshal_binary (drop 6 buf))
      ok (some f))
    else ok none

-- What comes behind the header, whose fields are read already.
unfoldable pub parse_body : ℕ → ℕ → ℕ → Bytes → Result Error Segment
parse_body version column_count row_count buf = do
  (flags, name, rest) ← parse_flags version buf
  (columns, blocks, rest') ← parse_columns column_count rest [] []
  f ← parse_bloom version flags rest'
  ok (record {
    version = version;
    schema = record { pk = name; columns = columns };
    row_count = row_count;
    blocks = blocks;
    decoded = [];
    flags = flags;
    pk_name = name;
    bloom_filter = f;
  })

unfoldable pub parse_segment : Bytes → Result Error Segment
parse_segment buf = do
  fail_if (ltb (length buf) 16) (truncated Part.header)
  fail_if (not (bytes_eq (take 4 buf) magic)) bad_magic
  let version = uint_le (take 2 (drop 4 buf))
  fail_if (not (version == 1) && not (version == 2)) (unsupported_version version)
  parse_body version (uint_le (take 2 (drop 6 buf))) (uint_le (take 8 (drop 8 buf))) (drop 16 buf)

-- ===== src/Storage/Segment/Read.antt =====
-- `ReadColumn`, `ColumnInfo` and the accessors.
use uniqcol.Common.{
  Bytes, List, Option, Result, err, get_elem?, length, map, map_err, none, ok, or_fail, panic, some,
  ℕ, ◌>>=◌, ◌∷◌,
}
use uniqcol.Storage.Segment.{
  Error, Encoding, unknown_type, unknown_column, int64s, float64s, strings,
}
use uniqcol.Storage.Types.{ColumnType, Column, column_index}
use uniqcol.Storage.Segment.{Encoding, ColumnBlock, Decoded, Segment, lookup}
use uniqcol.Storage.Codec.Rle.{decode_rle_int64, decode_rle_float64, decode_rle_string}
use uniqcol.Storage.Codec.Raw.{decode_raw_int64, decode_raw_float64, decode_raw_string}

-- The decoder for a type and an encoding, on a payload and a row count.
unfoldable pub decode_column : ColumnType → Encoding → Bytes → ℕ → Bytes → Result Error Decoded
decode_column ColumnType.int64 Encoding.rle payload rows name = do
  vals ← map_err Error.decode (decode_rle_int64 payload rows)
  ok (int64s vals)
decode_column ColumnType.int64 Encoding.raw payload rows name = do
  vals ← map_err Error.decode (decode_raw_int64 payload rows)
  ok (int64s vals)
decode_column ColumnType.float64 Encoding.rle payload rows name = do
  vals ← map_err Error.decode (decode_rle_float64 payload rows)
  ok (float64s vals)
decode_column ColumnType.float64 Encoding.raw payload rows name = do
  vals ← map_err Error.decode (decode_raw_float64 payload rows)
  ok (float64s vals)
decode_column ColumnType.string Encoding.rle payload rows name = do
  vals ← map_err Error.decode (decode_rle_string payload rows)
  ok (strings vals)
decode_column ColumnType.string Encoding.raw payload rows name = do
  vals ← map_err Error.decode (decode_raw_string payload rows)
  ok (strings vals)
decode_column (ColumnType.unknown u) encoding payload rows name = err (unknown_type name)

-- `s.schema.Columns[idx]`, which panics where `ColumnIndex` found nothing.
unfoldable pub type_at : List Column → Option ℕ → Result Error ColumnType
type_at columns none = panic
type_at columns (some i) = elim (get_elem? columns i) [ none ↦ panic | some c ↦ ok c.type ]

-- The column was not decoded before: the decoded values are kept in the segment.
unfoldable pub read_fresh : Segment → Bytes → Result Error (Segment × Decoded)
unfolding type_at decode_column lookup
read_fresh s name = do
  block ← or_fail (lookup name s.blocks) (unknown_column name)
  t ← type_at s.schema.columns (column_index s.schema name)
  vals ← decode_column t block.encoding block.payload s.row_count name
  ok (record s { decoded = (name, vals) ∷ s.decoded }, vals)

unfoldable pub read_column : Segment → Bytes → Result Error (Segment × Decoded)
unfolding read_fresh
read_column s name = elim (lookup name s.decoded) [
  | some vals ↦ ok (s, vals)
  | none ↦ read_fresh s name
]

pub record ColumnInfo : Type 0 where
  pub name : Bytes
  pub type : ColumnType
  pub encoding : Encoding
  pub payload_len : ℕ

-- One entry a column, in schema order; a map without the name gives the zero block.
unfoldable pub info_of : List (Bytes × ColumnBlock) → Column → ColumnInfo
unfolding lookup
info_of blocks c = elim (lookup c.name blocks) [
  | none ↦ record { name = c.name; type = c.type; encoding = Encoding.raw; payload_len = 0 }
  | some b ↦ record {
    name = c.name;
    type = c.type;
    encoding = b.encoding;
    payload_len = length b.payload;
  }
]

unfoldable pub column_info : Segment → List ColumnInfo
unfolding info_of
column_info s = map (info_of s.blocks) s.schema.columns

-- ===== src/Storage/Segment/Write.antt =====
-- `WriteSegment`, to a writer that takes every write: the result is all that was written. Nothing is
-- said of what the writer was given before an error.
use uniqcol.Common.{
  Bytes, List, Option, Result, [], bit_or, fail_if, if◌then◌else◌, length, ltb, none, ok, or_fail,
  some, ℕ, ◌++◌, ◌+◌, ◌==◌, ◌>>=◌, ◌>>◌, ◌∷◌,
}
use uniqcol.Storage.Segment.{Error, too_many_columns, unknown_type, int64s, float64s, strings}
use uniqcol.Storage.Types.{ColumnType, Column, Schema}
use uniqcol.Storage.Segment.{
  Encoding, magic, bloom_magic, flag_has_pk_name, flag_has_bloom, has_flag, column_type_to_wire,
  encoding_to_wire, ColumnBlock, Decoded,
}
use uniqcol.Storage.Codec.Rle.{encode_rle_int64, encode_rle_float64, encode_rle_string}
use uniqcol.Storage.Codec.Raw.{encode_raw_int64, encode_raw_float64, encode_raw_string}
use uniqcol.Storage.Buffer.{WriteBuffer, len}
use uniqcol.Bloom.Wire.{marshal_binary}
use uniqcol.Bloom.Filter.{Filter}
use uniqcol.Binary.{put_uvarint, put_uint_le}

pub record WriteSegmentOpts : Type 0 where
  pub pk_name : Bytes
  pub bloom : Option Filter

-- Today it always is RLE.
unfoldable pub choose_encoding : Decoded → Encoding
choose_encoding values = Encoding.rle

-- The payload of the values in the encoding.
unfoldable pub encode_column : Encoding → Decoded → Bytes
encode_column Encoding.rle (int64s vals) = encode_rle_int64 vals
encode_column Encoding.raw (int64s vals) = encode_raw_int64 vals
encode_column Encoding.rle (float64s vals) = encode_rle_float64 vals
encode_column Encoding.raw (float64s vals) = encode_raw_float64 vals
encode_column Encoding.rle (strings vals) = encode_rle_string vals
encode_column Encoding.raw (strings vals) = encode_raw_string vals

-- The slice of column `i` in the buffer, by the column's type.
unfoldable pub buffered : WriteBuffer → ℕ → ColumnType → Option Decoded
buffered b i ColumnType.int64 = some (int64s (b.int64_cols i))
buffered b i ColumnType.float64 = some (float64s (b.float64_cols i))
buffered b i ColumnType.string = some (strings (b.string_cols i))
buffered b i (ColumnType.unknown u) = none

unfoldable pub block_of : Decoded → ColumnBlock
unfolding choose_encoding encode_column
block_of vals = record {
  encoding = choose_encoding vals;
  payload = encode_column (choose_encoding vals) vals;
}

-- The bytes of one column block, in front of `rest`.
unfoldable pub put_block : Bytes → ℕ → ColumnBlock → Bytes → Bytes
unfolding encoding_to_wire
put_block name wire block rest =
    put_uvarint (length name)
    ++ (name
        ++ (wire
            ∷ encoding_to_wire block.encoding
            ∷ (put_uvarint (length block.payload) ++ (block.payload ++ rest))))

-- The loop over the columns, from column `i` on; `rest` is what is written behind them.
unfoldable pub put_columns : WriteBuffer → ℕ → List Column → Bytes → Result Error Bytes
put_columns b i [] rest = ok rest
put_columns b i (c ∷ cs) rest = do
  vals ← or_fail (buffered b i c.type) (unknown_type c.name)
  wire ← or_fail (column_type_to_wire c.type) (unknown_type c.name)
  more ← put_columns b (i + 1) cs rest
  ok (put_block c.name wire (block_of vals) more)

-- The flags block, with the name of the key if there is one, in front of `rest`.
unfoldable pub flags_of : WriteSegmentOpts → ℕ
flags_of opts =
    bit_or (if length opts.pk_name == 0 then 0 else flag_has_pk_name)
      (elim opts.bloom [ none ↦ 0 | some f ↦ flag_has_bloom ])

unfoldable pub put_flags : ℕ → Bytes → Bytes → Bytes
put_flags flags pk_name rest =
    put_uvarint 1
    ++ (flags
        ∷ (if has_flag flags flag_has_pk_name
            then put_uvarint (length pk_name) ++ (pk_name ++ rest)
            else rest))

unfoldable pub put_bloom : Option Filter → Bytes
put_bloom none = []
put_bloom (some f) = bloom_magic ++ (put_uint_le 2 1 ++ marshal_binary f)

-- Magic, version, column count and row count, in front of `rest`.
unfoldable pub put_header : ℕ → ℕ → Bytes → Bytes
put_header column_count rows rest =
    magic ++ (put_uint_le 2 2 ++ (put_uint_le 2 column_count ++ (put_uint_le 8 rows ++ rest)))

unfoldable pub write_segment : Schema → WriteBuffer → WriteSegmentOpts → Result Error Bytes
write_segment schema buf opts = do
  fail_if (ltb 0xffff (length schema.columns)) too_many_columns
  columns ← put_columns buf 0 schema.columns (put_bloom opts.bloom)
  ok (put_header (length schema.columns) (len buf) (put_flags (flags_of opts) opts.pk_name columns))

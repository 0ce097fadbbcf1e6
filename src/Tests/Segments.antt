-- ===== src/Tests/Segments.antt =====
-- A segment of two rows.
use uniqcol.Common.{Bytes, Result, [], arith, length, ltb→lt, none, ok, refl, some, ◌∷◌, ◌≡◌, ◌≤◌}
use uniqcol.Tests.Filters.{small, small-IsValid}
use uniqcol.Binary.{IsU64, put_uint_le, put_uvarint}
use uniqcol.Storage.Segment.Parse.Frame.{FilterFits}
use uniqcol.Tests.Tables.{id_name, text, two_columns, row_one, row_two}
use uniqcol.Storage.Segment.{Segment, Decoded, Encoding, strings, int64s}
use uniqcol.Storage.Codec.Rle.{encode_rle_int64, encode_rle_string, decode_rle_string}
use uniqcol.Bloom.Wire.{marshal_binary}
use uniqcol.Storage.Segment.{column_type_to_wire}
use uniqcol.Storage.Segment.Write.{
  put_columns, buffered, put_header, put_flags, flags_of, put_block, block_of, put_bloom,
  WriteSegmentOpts, write_segment,
}
use uniqcol.Storage.Segment.Parse.{parse_segment}
use uniqcol.Storage.Segment.Header.{read_segment_header}
use uniqcol.Storage.Segment.Header.Agrees.{read_segment_header-parse_segment}
use uniqcol.Storage.Codec.{max_alloc}
use uniqcol.Storage.Segment.Read.{read_column}
use uniqcol.Storage.Segment.RoundTrip.{written, parse_segment-write_segment}
use uniqcol.Storage.Segment.Columns.{values_of}
use uniqcol.Storage.Segment.ReadBack.{read_column_again, read_column-write_segment}
use uniqcol.Storage.Buffer.{WriteBuffer, new_write_buffer, store_row, len}
use uniqcol.Storage.Buffer.Cells.{Represents, new_write_buffer-Represents}
use uniqcol.Storage.Buffer.Append.{appended, appended-Represents}
use uniqcol.Storage.Types.{Value, column_index}

abbrev one_row : WriteBuffer
one_row = appended (new_write_buffer two_columns) row_one

abbrev two_rows : WriteBuffer
two_rows = appended one_row row_two

one_row-Represents : Represents one_row (row_one ∷ [])
unfolding new_write_buffer
one_row-Represents =
    appended-Represents (new_write_buffer two_columns) [] row_one
      (new_write_buffer-Represents two_columns) (tt, (tt, tt))

two_rows-Represents : Represents two_rows (row_one ∷ row_two ∷ [])
unfolding new_write_buffer store_row
two_rows-Represents =
    appended-Represents one_row (row_one ∷ []) row_two one_row-Represents (tt, (tt, tt))

abbrev keyed : WriteSegmentOpts
keyed = record { pk_name = two_columns.pk; bloom = some small }

-- The bytes of a result.
abbrev pub bytes_of : Result uniqcol.Storage.Segment.Error Bytes → Bytes
bytes_of (ok out) = out
bytes_of _ = []

abbrev file : Bytes
file = bytes_of (write_segment two_columns two_rows keyed)

file_written : write_segment two_columns two_rows keyed ≡ ok file
unfolding write_segment put_columns buffered column_type_to_wire
file_written = refl

file-IsU64 : IsU64 (length file)
unfolding write_segment put_columns buffered column_type_to_wire put_header put_uint_le put_flags
    put_uvarint flags_of put_block block_of encode_rle_int64 store_row new_write_buffer
    encode_rle_string put_bloom marshal_binary
file-IsU64 = ltb→lt (length file) 0x1_0000_0000_0000_0000 refl

parse_segment-write_segment_example : parse_segment file ≡ ok (written two_columns two_rows keyed)
unfolding new_write_buffer store_row FilterFits len
parse_segment-write_segment_example =
    parse_segment-write_segment two_columns two_rows keyed file file_written file-IsU64
      (omega arith) small-IsValid

file_parsed : parse_segment file ≡ ok (written two_columns two_rows keyed)
unfolding new_write_buffer store_row FilterFits len
file_parsed =
    parse_segment-write_segment two_columns two_rows keyed file file_written file-IsU64
      (omega arith) small-IsValid

file_small : length file ≤ max_alloc
unfolding write_segment put_columns buffered column_type_to_wire put_header put_uint_le put_flags
    put_uvarint flags_of put_block block_of encode_rle_int64 store_row new_write_buffer
    encode_rle_string put_bloom marshal_binary
file_small = omega (arith, ltb→lt (length file) max_alloc refl)

read_segment_header-parse_segment_example : read_segment_header file ≡ ok (two_columns, 2)
unfolding store_row new_write_buffer written len
read_segment_header-parse_segment_example =
    read_segment_header-parse_segment file (written two_columns two_rows keyed) file_small
      file_parsed

read_column-write_segment_example :
    (t : Segment) × (vals : Decoded) × (parse_segment file
      ≡ ok (written two_columns two_rows keyed))
    × (read_column (written two_columns two_rows keyed) text.name ≡ ok (t, vals))
    × (values_of vals ≡ Value.string (b'x' ∷ []) ∷ Value.string (b'x' ∷ []) ∷ [])
unfolding new_write_buffer store_row FilterFits
read_column-write_segment_example =
    read_column-write_segment two_columns two_rows keyed file (row_one ∷ row_two ∷ []) 1 text
      file_written file-IsU64 small-IsValid refl two_rows-Represents (omega arith)
      ((omega arith, (omega arith, tt)), ((omega arith, (omega arith, tt)), tt))
      (((λ e. cc), tt), (tt, tt)) refl

-- Two columns, of which one is decoded.
abbrev half_read : Segment
half_read = record {
  version = 2;
  schema = two_columns;
  row_count = 0;
  blocks = (text.name, record { encoding = Encoding.rle; payload = [] }) ∷ [];
  decoded = (id_name, int64s []) ∷ [];
  flags = 0;
  pk_name = [];
  bloom_filter = none;
}

abbrev all_read : Segment
all_read = record half_read { decoded = (text.name, strings []) ∷ half_read.decoded }

text_read : read_column half_read text.name ≡ ok (all_read, strings [])
unfolding read_column column_index decode_rle_string
text_read = refl

read_column_again_example : read_column all_read text.name ≡ ok (all_read, strings [])
read_column_again_example = read_column_again half_read all_read text.name (strings []) text_read

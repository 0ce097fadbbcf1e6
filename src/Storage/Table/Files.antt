-- ===== src/Storage/Table/Files.antt =====
-- `Flush` and `LoadTable` of storage/table.go. A file is the list of its bytes.
pub mod Reload
use uniqcol.Common.{
  Bytes, Result, fail_if, length, map_err, not, or_fail, some, ℕ, ◌==◌, ◌>>=◌, ◌>>◌,
}
use uniqcol.Storage.Segment.{Segment}
use uniqcol.Storage.Types.{SchemaError, validate, pk_index}
use uniqcol.Storage.Table.{Table, CreateError, table_at}
use uniqcol.Storage.Segment.Write.{write_segment}
use uniqcol.Storage.Segment.Parse.{parse_segment}

-- Why a file makes no table. `table_at` gives no error.
pub data LoadError : Type 0 where
  segment : uniqcol.Storage.Segment.Error → LoadError
  wrong_version : ℕ → LoadError
  no_pk_name no_bloom : LoadError
  invalid_schema : SchemaError → LoadError
  table : CreateError → LoadError

unfoldable pub flush : Table → Result uniqcol.Storage.Segment.Error Bytes
unfolding write_segment
flush t = write_segment t.schema t.buf (record { pk_name = t.schema.pk; bloom = t.bloom })

unfoldable pub load_table : Bytes → Result LoadError Table
unfolding parse_segment table_at
load_table buf = do
  s ← map_err LoadError.segment (parse_segment buf)
  fail_if (not (s.version == 2)) (wrong_version s.version)
  fail_if (length s.pk_name == 0) no_pk_name
  f ← or_fail s.bloom_filter no_bloom
  map_err LoadError.invalid_schema (validate s.schema)
  map_err LoadError.table (table_at s.schema (some f) (pk_index s.schema))

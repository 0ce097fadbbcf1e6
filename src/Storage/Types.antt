-- ===== src/Storage/Types.antt =====
-- storage/types.go: column types, schemas and rows.
pub mod Schemas
pub mod Validation
use uniqcol.Common.{
  Bool, Bytes, List, Option, Result, [], bytes_eq, fail_if, false, if◌then◌else◌, length, none, not,
  some, ℕ, ◌+◌, ◌==◌, ◌>>◌, ◌||◌, ◌∷◌,
}

-- `ColumnType` is a uint8: the three supported values, and any other.
pub data ColumnType : Type 0 where
  int64 float64 string : ColumnType
  unknown : ℕ → ColumnType

pub record Column : Type 0 where
  pub name : Bytes
  pub type : ColumnType

pub record Schema : Type 0 where
  pub pk : Bytes
  pub columns : List Column

-- A cell, `any` in Go. An int64 and a float64 are their bits; `uint64` is the result of a count, and
-- `other` a value of any further type.
pub data Value : Type 0 where
  nil : Value
  int64 : ℕ → Value
  float64 : ℕ → Value
  string : Bytes → Value
  uint64 : ℕ → Value
  other : Value

abbrev pub Row : Type 0
Row = List Value

pub data SchemaError : Type 0 where
  no_columns : SchemaError
  duplicate_column : Bytes → SchemaError
  pk_not_found : Bytes → SchemaError

-- Membership in the map `seen`, here the names in the order of their insertion.
unfoldable pub seen_name : Bytes → List Bytes → Bool
unfolding bytes_eq
seen_name name [] = false
seen_name name (n ∷ ns) = bytes_eq n name || seen_name name ns

-- The loop over the columns, with `seen` so far and, at the end, the test for the key.
unfoldable pub validate_columns : Bytes → List Bytes → List Column → Result SchemaError (Unit {0})
unfolding seen_name
validate_columns pk seen [] = fail_if (not (seen_name pk seen)) (pk_not_found pk)
validate_columns pk seen (c ∷ cs) = do
  fail_if (seen_name c.name seen) (duplicate_column c.name)
  validate_columns pk (c.name ∷ seen) cs

-- `len(s.Columns) == 0`
unfoldable pub validate : Schema → Result SchemaError (Unit {0})
unfolding validate_columns
validate s = do fail_if (length s.columns == 0) no_columns; validate_columns s.pk [] s.columns

-- The loop of `ColumnIndex`; `none` is the pair (-1, false).
unfoldable pub find_column : Bytes → ℕ → List Column → Option ℕ
unfolding bytes_eq
find_column name i [] = none
find_column name i (c ∷ cs) = if bytes_eq c.name name then some i else find_column name (i + 1) cs

unfoldable pub column_index : Schema → Bytes → Option ℕ
unfolding find_column
column_index s name = find_column name 0 s.columns

unfoldable pub pk_index : Schema → Option ℕ
unfolding column_index
pk_index s = column_index s s.pk

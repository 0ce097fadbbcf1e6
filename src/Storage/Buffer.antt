-- ===== src/Storage/Buffer.antt =====
-- storage/buffer.go. The three maps from column indices are functions: a key that is not there reads
-- as the empty slice, as in Go. The functions that change the buffer return the new one.
pub mod Cells
pub mod Append
use uniqcol.Common.{
  Bytes, List, Option, [], if◌then◌else◌, inl, inr, length, none, not, some, ℕ, ◌++◌, ◌+◌, ◌==◌,
  ◌∷◌, ◌⊎◌,
}
use uniqcol.Storage.Types.{ColumnType, Column, Schema, Value, Row}

pub record WriteBuffer : Type 0 where
  pub schema : Schema
  pub int64_cols : ℕ → List ℕ
  pub float64_cols : ℕ → List ℕ
  pub string_cols : ℕ → List Bytes
  pub rows : ℕ

-- What is wrong with a row, with the name of the column.
pub data AppendError : Type 0 where
  row_length : AppendError
  nil_value wrong_type unknown_type : Bytes → AppendError

unfoldable pub new_write_buffer : Schema → WriteBuffer
new_write_buffer schema = record {
  schema = schema;
  int64_cols = λ i. [];
  float64_cols = λ i. [];
  string_cols = λ i. [];
  rows = 0;
}

-- The checks on one value; `none` is no error.
unfoldable pub check_value : Bytes → ColumnType → Value → Option AppendError
check_value name t Value.nil = some (nil_value name)
check_value name ColumnType.int64 (Value.int64 x) = none
check_value name ColumnType.int64 _ = some (wrong_type name)
check_value name ColumnType.float64 (Value.float64 x) = none
check_value name ColumnType.float64 _ = some (wrong_type name)
check_value name ColumnType.string (Value.string s) = none
check_value name ColumnType.string _ = some (wrong_type name)
check_value name (ColumnType.unknown u) _ = some (unknown_type name)

-- The first loop: the first column whose value is refused. A row has a value for each column here.
unfoldable pub check_row : List Column → Row → Option AppendError
unfolding check_value
check_row [] row = none
check_row (c ∷ cs) [] = some row_length
check_row (c ∷ cs) (v ∷ vs) = elim (check_value c.name c.type v) [
  | some e ↦ some e
  | none ↦ check_row cs vs
]

abbrev pub update {ℓ} : {A : Type ℓ} → (ℕ → A) → ℕ → A → ℕ → A
update f i a j = if j == i then a else f j

-- `append` to the slice of the column's type. Other values were refused by `check_value`.
unfoldable pub store_value : ℕ → ColumnType → Value → WriteBuffer → WriteBuffer
store_value i ColumnType.int64 (Value.int64 x) b = record b {
  int64_cols = update b.int64_cols i (b.int64_cols i ++ x ∷ []);
}
store_value i ColumnType.float64 (Value.float64 x) b = record b {
  float64_cols = update b.float64_cols i (b.float64_cols i ++ x ∷ []);
}
store_value i ColumnType.string (Value.string s) b = record b {
  string_cols = update b.string_cols i (b.string_cols i ++ s ∷ []);
}
store_value i _ _ b = b

-- The second loop, from column `i` on.
unfoldable pub store_row : ℕ → List Column → Row → WriteBuffer → WriteBuffer
unfolding store_value
store_row i [] row b = b
store_row i (c ∷ cs) [] b = b
store_row i (c ∷ cs) (v ∷ vs) b = store_row (i + 1) cs vs (store_value i c.type v b)

-- An error, or the buffer with the row.
unfoldable pub append : WriteBuffer → Row → AppendError ⊎ WriteBuffer
unfolding check_row store_row
append b row =
    if not (length row == length b.schema.columns)
    then inl row_length
    else elim (check_row b.schema.columns row) [
      | some e ↦ inl e
      | none ↦
          let stored = store_row 0 b.schema.columns row b in
          inr (record stored { rows = stored.rows + 1 })
    ]

unfoldable pub len : WriteBuffer → ℕ
len b = b.rows

unfoldable pub reset : WriteBuffer → WriteBuffer
reset b = record b { int64_cols = λ i. []; float64_cols = λ i. []; string_cols = λ i. []; rows = 0 }

-- ===== src/Query/Evaluate.antt =====
-- `evaluate` of query/exec.go. Reading a column changes the segment, which is passed on.
pub mod Rows
pub mod Trees
use uniqcol.Common.{
  Bool, Bytes, List, Result, [], err, false, map_err, not, ok, or_fail, panic, some, true, ℕ, ◌&&◌,
  ◌>>=◌, ◌>>◌, ◌||◌, ◌∷◌,
}
use uniqcol.Query.{
  Comparison, FilterExpr, FilterExprs, FloatOps, Error, comparison, conj, disj, malformed, end,
  child, unknown_column, type_mismatch, unsupported_type, malformed_expr, read,
}
use uniqcol.Query.Compare.{scan_int64, scan_float64, scan_string}
use uniqcol.Storage.Segment.{Segment, Decoded, int64s, float64s, strings}
use uniqcol.Storage.Segment.Read.{read_column, type_at}
use uniqcol.Storage.Types.{ColumnType, Value, column_index}

unfoldable pub check_literal_type : Comparison → ColumnType → Result Error (Unit {0})
check_literal_type c t = elim t [
  | ColumnType.int64 ↦ elim c.value [ Value.int64 x ↦ ok tt | _ ↦ err (type_mismatch c.column) ]
  | ColumnType.float64 ↦ elim c.value [ Value.float64 x ↦ ok tt | _ ↦ err (type_mismatch c.column) ]
  | ColumnType.string ↦ elim c.value [ Value.string x ↦ ok tt | _ ↦ err (type_mismatch c.column) ]
  | ColumnType.unknown u ↦ err unsupported_type
]

-- The type assertions on the decoded column and on the literal, which panic when they fail.
unfoldable pub as_int64s : Decoded → Result Error (List ℕ)
as_int64s (int64s vals) = ok vals
as_int64s _ = panic

unfoldable pub as_float64s : Decoded → Result Error (List ℕ)
as_float64s (float64s vals) = ok vals
as_float64s _ = panic

unfoldable pub as_strings : Decoded → Result Error (List Bytes)
as_strings (strings vals) = ok vals
as_strings _ = panic

unfoldable pub as_int64 : Value → Result Error ℕ
as_int64 (Value.int64 x) = ok x
as_int64 _ = panic

unfoldable pub as_float64 : Value → Result Error ℕ
as_float64 (Value.float64 x) = ok x
as_float64 _ = panic

unfoldable pub as_string : Value → Result Error Bytes
as_string (Value.string x) = ok x
as_string _ = panic

unfoldable pub apply_comparison :
    FloatOps → Decoded → ColumnType → Comparison → Result Error (List Bool)
unfolding as_int64s as_float64s as_strings as_int64 as_float64 as_string scan_int64 scan_float64
    scan_string
apply_comparison fl decoded ColumnType.int64 c = do
  vals ← as_int64s decoded
  want ← as_int64 c.value
  ok (scan_int64 vals c.op want)
apply_comparison fl decoded ColumnType.float64 c = do
  vals ← as_float64s decoded
  want ← as_float64 c.value
  ok (scan_float64 fl vals c.op want)
apply_comparison fl decoded ColumnType.string c = do
  vals ← as_strings decoded
  want ← as_string c.value
  ok (scan_string vals c.op want)
apply_comparison fl decoded (ColumnType.unknown u) c = err unsupported_type

unfoldable pub eval_comparison :
    FloatOps → Segment → Comparison → Result Error (Segment × List Bool)
unfolding check_literal_type apply_comparison read_column
eval_comparison fl s c = do
  idx ← or_fail (column_index s.schema c.column) (unknown_column c.column)
  t ← map_err (read c.column) (type_at s.schema.columns (some idx))
  check_literal_type c t
  (s', vals) ← map_err (read c.column) (read_column s c.column)
  selection ← apply_comparison fl vals t c
  ok (s', selection)

-- Whether an operand decides the result, so that the other one is not looked at.
unfoldable pub decides : (Bool → Bool → Bool) → Bool → Bool
decides op a = op a false || not (op a true)

-- The loop over the positions of `acc`. Past the end of the other vector it panics where the operand
-- of `acc` does not decide.
unfoldable pub combine : (Bool → Bool → Bool) → List Bool → List Bool → Result Error (List Bool)
unfolding decides
combine op [] next = ok []
combine op (a ∷ acc) [] = elim (decides op a) [
  | false ↦ panic
  | true ↦ (do rest ← combine op acc []; ok (op a false ∷ rest))
]
combine op (a ∷ acc) (b ∷ next) = do rest ← combine op acc next; ok (op a b ∷ rest)

unfoldable mutual
  pub evaluate : FloatOps → Segment → FilterExpr → Result Error (Segment × List Bool)
  evaluate fl s (comparison c) = eval_comparison fl s c
  evaluate fl s (conj end) = panic
  evaluate fl s (conj (child e es)) = do
    (s', acc) ← evaluate fl s e
    evaluate_rest fl ◌&&◌ s' acc es
  evaluate fl s (disj end) = panic
  evaluate fl s (disj (child e es)) = do
    (s', acc) ← evaluate fl s e
    evaluate_rest fl ◌||◌ s' acc es
  evaluate fl s malformed = err malformed_expr

  pub evaluate_rest :
      FloatOps
      → (Bool → Bool → Bool)
      → Segment
      → List Bool
      → FilterExprs
      → Result Error (Segment × List Bool)
  evaluate_rest fl op s acc end = ok (s, acc)
  evaluate_rest fl op s acc (child e es) = do
    (s', next) ← evaluate fl s e
    acc' ← combine op acc next
    evaluate_rest fl op s' acc' es

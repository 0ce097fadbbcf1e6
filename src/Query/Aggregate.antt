-- ===== src/Query/Aggregate.antt =====
-- `execCount`, `execSum` and `execProject` of query/exec.go.
pub mod Sums
pub mod Rows
use uniqcol.Common.{
  Bool, Bytes, List, Option, Result, [], err, false, get_elem?, if◌then◌else◌, leb, ltb, map_err,
  none, not, ok, or_fail, panic, some, suc, true, zero, ℕ, ◌%◌, ◌&&◌, ◌*◌, ◌++◌, ◌+◌, ◌>>=◌, ◌>>◌,
  ◌||◌, ◌∷◌,
}
use uniqcol.Query.{Answer, FloatOps, Error, unknown_column, type_mismatch, sum_overflow, read}
use uniqcol.Storage.Codec.{max_alloc}
use uniqcol.Storage.Segment.{Segment, Decoded, int64s, float64s, strings}
use uniqcol.Storage.Segment.Read.{read_column, type_at}
use uniqcol.Storage.Types.{ColumnType, Value, column_index}

-- The selected rows, counted.
unfoldable pub count_selected : List Bool → ℕ
count_selected [] = 0
count_selected (b ∷ bs) = if b then suc (count_selected bs) else count_selected bs

abbrev pub count_header : Bytes
count_header = b'C' ∷ b'O' ∷ b'U' ∷ b'N' ∷ b'T' ∷ b'(' ∷ b'*' ∷ b')' ∷ []

abbrev pub sum_header : Bytes → Bytes
sum_header col = (b'S' ∷ b'U' ∷ b'M' ∷ b'(' ∷ []) ++ (col ++ b')' ∷ [])

-- `selection` is `none` when there is no WHERE. A slice has fewer than 2 ^ 64 entries, so the counter
-- does not wrap.
unfoldable pub exec_count : Segment → Option (List Bool) → Answer
unfolding count_selected
exec_count s selection = record {
  columns = count_header ∷ [];
  rows =
      (Value.uint64 (elim selection [ none ↦ s.row_count | some bs ↦ count_selected bs ]) ∷ [])
      ∷ [];
  is_aggregate = true;
}

-- `x > 0` and `x < 0` of an int64 by its bits.
abbrev pub is_positive : ℕ → Bool
is_positive x = ltb 0 x && ltb x 0x8000_0000_0000_0000

abbrev pub is_negative : ℕ → Bool
is_negative x = leb 0x8000_0000_0000_0000 x

-- The sum, or `none` where the flag is false.
unfoldable pub add_int64_checked : ℕ → ℕ → Option ℕ
add_int64_checked sum x =
    let new_sum = (sum + x) % 0x1_0000_0000_0000_0000 in
    if is_positive sum && is_positive x && is_negative new_sum
      || is_negative sum && is_negative x && not (is_negative new_sum)
    then none
    else some new_sum

-- `filtered && !selection[i]`, which panics out of range.
unfoldable pub skipped : Option (List Bool) → ℕ → Result Error Bool
skipped none i = ok false
skipped (some bs) i = elim (get_elem? bs i) [ none ↦ panic | some b ↦ ok (not b) ]

-- The loop over the values from position `i` on.
unfoldable pub sum_int64 : Bytes → Option (List Bool) → ℕ → List ℕ → ℕ → Result Error ℕ
unfolding skipped add_int64_checked
sum_int64 col selection i [] sum = ok sum
sum_int64 col selection i (x ∷ xs) sum = do
  skip ← skipped selection i
  new_sum ← if skip then ok sum else or_fail (add_int64_checked sum x) (sum_overflow col)
  sum_int64 col selection (i + 1) xs new_sum

unfoldable pub sum_float64 : FloatOps → Option (List Bool) → ℕ → List ℕ → ℕ → Result Error ℕ
unfolding skipped
sum_float64 fl selection i [] sum = ok sum
sum_float64 fl selection i (x ∷ xs) sum = do
  skip ← skipped selection i
  sum_float64 fl selection (i + 1) xs (if skip then sum else fl.float_add sum x)

abbrev pub aggregate : Bytes → Value → Answer
aggregate col v = record {
  columns = sum_header col ∷ [];
  rows = (v ∷ []) ∷ [];
  is_aggregate = true;
}

-- The sum of a decoded column; the float 0.0 has the bits 0.
unfoldable pub sum_decoded :
    FloatOps → Bytes → ColumnType → Decoded → Option (List Bool) → Result Error Answer
unfolding sum_int64 sum_float64
sum_decoded fl col ColumnType.int64 (int64s vals) selection = do
  total ← sum_int64 col selection 0 vals 0
  ok (aggregate col (Value.int64 total))
sum_decoded fl col ColumnType.float64 (float64s vals) selection = do
  total ← sum_float64 fl selection 0 vals 0
  ok (aggregate col (Value.float64 total))
sum_decoded fl col t vals selection = panic

-- Only the two types of numbers can be summed.
unfoldable pub check_summable : Bytes → ColumnType → Result Error (Unit {0})
check_summable col ColumnType.int64 = ok tt
check_summable col ColumnType.float64 = ok tt
check_summable col _ = err (type_mismatch col)

unfoldable pub exec_sum :
    FloatOps → Segment → Bytes → Option (List Bool) → Result Error (Segment × Answer)
unfolding sum_decoded check_summable
exec_sum fl s col selection = do
  idx ← or_fail (column_index s.schema col) (unknown_column col)
  t ← map_err (read col) (type_at s.schema.columns (some idx))
  check_summable col t
  (s', vals) ← map_err (read col) (read_column s col)
  answer ← sum_decoded fl col t vals selection
  ok (s', answer)

-- `s[i]`, which panics out of range.
unfoldable pub row_value_at : Decoded → ℕ → Result Error Value
row_value_at (int64s xs) i = elim (get_elem? xs i) [ none ↦ panic | some x ↦ ok (Value.int64 x) ]
row_value_at (float64s xs) i = elim (get_elem? xs i) [
  | none ↦ panic
  | some x ↦ ok (Value.float64 x)
]
row_value_at (strings xs) i = elim (get_elem? xs i) [ none ↦ panic | some x ↦ ok (Value.string x) ]

unfoldable pub read_columns : Segment → List Bytes → Result Error (Segment × List Decoded)
unfolding read_column
read_columns s [] = ok (s, [])
read_columns s (name ∷ names) = do
  (s', v) ← map_err (read name) (read_column s name)
  (s'', vs) ← read_columns s' names
  ok (s'', v ∷ vs)

unfoldable pub row_at : List Decoded → ℕ → Result Error (List Value)
unfolding row_value_at
row_at [] i = ok []
row_at (d ∷ ds) i = do v ← row_value_at d i; vs ← row_at ds i; ok (v ∷ vs)

-- The loop over the rows: `n` of them, from row `i` on.
unfoldable pub project_rows :
    List Decoded → Option (List Bool) → ℕ → ℕ → Result Error (List (List Value))
unfolding skipped row_at
project_rows decoded selection zero i = ok []
project_rows decoded selection (suc n) i = do
  skip ← skipped selection i
  elim skip [
    | true ↦ project_rows decoded selection n (i + 1)
    | false ↦ (do
      row ← row_at decoded i
      rows ← project_rows decoded selection n (i + 1)
      ok (row ∷ rows))
  ]

-- The capacity of the slice of rows.
unfoldable pub estimate_rows : ℕ → Option (List Bool) → ℕ
unfolding count_selected
estimate_rows total none = total
estimate_rows total (some bs) = count_selected bs

-- `make([][]any, 0, n)`: a slice header of 24 bytes for each row. The other slices that `execProject`
-- makes have as many entries as the names that are projected, which are in memory.
unfoldable pub make_rows : ℕ → Result Error (Unit {0})
make_rows n = if ltb max_alloc (24 * n) then panic else ok tt

unfoldable pub exec_project :
    Segment → List Bytes → Option (List Bool) → Result Error (Segment × Answer)
unfolding read_columns make_rows estimate_rows project_rows
exec_project s cols selection = do
  (s', decoded) ← read_columns s cols
  make_rows (estimate_rows s.row_count selection)
  rows ← project_rows decoded selection s.row_count 0
  ok (s', record { columns = cols; rows = rows; is_aggregate = false })

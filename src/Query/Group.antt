-- ===== src/Query/Group.antt =====
-- `execGrouped` of query/exec.go. The map of accumulators is a list of its entries, and the pointer
-- that the loop holds is the entry that it puts back. Keys are compared as Go compares them in a map.
pub mod Keys
pub mod Rounds
pub mod Counts
pub mod Nan
use uniqcol.Common.{
  Bool, Bytes, List, Option, Result, [], bytes_eq, false, get_elem?, if◌then◌else◌, length, map_err,
  none, ok, or_fail, panic, some, suc, true, zero, ℕ, ◌++◌, ◌+◌, ◌==◌, ◌>>=◌, ◌>>◌, ◌∷◌,
}
use uniqcol.Query.{
  Query, AggregateKind, Answer, FloatOps, Error, unknown_column, sum_overflow, read,
}
use uniqcol.Query.Aggregate.{
  skipped, add_int64_checked, check_summable, make_rows, row_value_at, sum_header, count_header,
}
use uniqcol.Storage.Segment.{Segment, Decoded, int64s, float64s}
use uniqcol.Storage.Segment.Read.{read_column, type_at}
use uniqcol.Storage.Types.{ColumnType, Value, column_index}

pub record Accumulator : Type 0 where
  pub count : ℕ
  pub sum_int : ℕ
  pub sum_float : ℕ

-- The column that is summed, if one is: `sumI64s` or `sumF64s`.
pub data Summed : Type 0 where
  counted : Summed
  ints floats : List ℕ → Summed

abbrev pub GroupTable : Type 0
GroupTable = List (Value × Accumulator)

-- The keys in the order of their discovery, and the map.
pub record Groups : Type 0 where
  pub keys : List Value
  pub table : GroupTable

-- `==` of two keys.
unfoldable pub value_eq : FloatOps → Value → Value → Bool
unfolding bytes_eq
value_eq fl (Value.int64 x) (Value.int64 y) = x == y
value_eq fl (Value.float64 x) (Value.float64 y) = fl.float_eq x y
value_eq fl (Value.string x) (Value.string y) = bytes_eq x y
value_eq fl _ _ = false

unfoldable pub find_group : FloatOps → Value → GroupTable → Option Accumulator
unfolding value_eq
find_group fl key [] = none
find_group fl key ((k, acc) ∷ rest) = if value_eq fl k key then some acc else find_group fl key rest

-- The entry of the key with a new accumulator, at the end if there was none.
unfoldable pub put_group : FloatOps → Value → Accumulator → GroupTable → GroupTable
unfolding value_eq
put_group fl key acc [] = (key, acc) ∷ []
put_group fl key acc ((k, old) ∷ rest) =
    if value_eq fl k key then (k, acc) ∷ rest else (k, old) ∷ put_group fl key acc rest

-- One row more in a group. A table has fewer than 2 ^ 64 rows, so that the count does not wrap.
unfoldable pub accumulate : FloatOps → Bytes → Summed → ℕ → Accumulator → Result Error Accumulator
unfolding add_int64_checked
accumulate fl col counted i acc = ok (record acc { count = acc.count + 1 })
accumulate fl col (ints xs) i acc = do
  x ← elim (get_elem? xs i) [ none ↦ panic | some v ↦ ok v ]
  new_sum ← or_fail (add_int64_checked acc.sum_int x) (sum_overflow col)
  ok (record acc { sum_int = new_sum })
accumulate fl col (floats xs) i acc = do
  x ← elim (get_elem? xs i) [ none ↦ panic | some v ↦ ok v ]
  ok (record acc { sum_float = fl.float_add acc.sum_float x })

abbrev pub fresh : Accumulator
fresh = record { count = 0; sum_int = 0; sum_float = 0 }

-- A row with this key.
unfoldable pub group_row :
    FloatOps → Bytes → Summed → ℕ → Value → Groups → Option Accumulator → Result Error Groups
unfolding put_group accumulate
group_row fl col summed i key g (some acc) = do
  acc' ← accumulate fl col summed i acc
  ok (record g { table = put_group fl key acc' g.table })
group_row fl col summed i key g none = do
  acc' ← accumulate fl col summed i fresh
  ok (record { keys = g.keys ++ key ∷ []; table = put_group fl key acc' g.table })

-- The loop over the rows: `n` of them, from row `i` on.
unfoldable pub group_rows :
    FloatOps → Bytes → Summed → Decoded → Option (List Bool) → ℕ → ℕ → Groups → Result Error Groups
unfolding skipped row_value_at group_row find_group
group_rows fl col summed keys selection zero i g = ok g
group_rows fl col summed keys selection (suc n) i g = do
  skip ← skipped selection i
  elim skip [
    | true ↦ group_rows fl col summed keys selection n (i + 1) g
    | false ↦ (do
      key ← row_value_at keys i
      g' ← group_row fl col summed i key g (find_group fl key g.table)
      group_rows fl col summed keys selection n (i + 1) g')
  ]

-- The cell of an accumulator.
unfoldable pub group_value : Summed → Accumulator → Value
group_value counted acc = Value.uint64 acc.count
group_value (ints xs) acc = Value.int64 acc.sum_int
group_value (floats xs) acc = Value.float64 acc.sum_float

-- The rows of the answer; a key that the map does not give is a nil pointer.
unfoldable pub emit_groups :
    FloatOps → Summed → List Value → GroupTable → Result Error (List (List Value))
unfolding find_group group_value
emit_groups fl summed [] table = ok []
emit_groups fl summed (k ∷ ks) table = do
  acc ← elim (find_group fl k table) [ none ↦ panic | some acc ↦ ok acc ]
  rows ← emit_groups fl summed ks table
  ok ((k ∷ group_value summed acc ∷ []) ∷ rows)

-- The type assertion on the decoded column, by the type of the schema; other types were refused.
unfoldable pub summed_of : ColumnType → Decoded → Result Error Summed
summed_of ColumnType.int64 (int64s xs) = ok (ints xs)
summed_of ColumnType.float64 (float64s xs) = ok (floats xs)
summed_of t vals = panic

unfoldable pub read_summed : Segment → Query → Result Error (Segment × Summed)
unfolding check_summable read_column summed_of
read_summed s q = elim q.group_agg [
  | AggregateKind.count_star ↦ ok (s, counted)
  | AggregateKind.sum_column ↦ (do
    idx ← or_fail (column_index s.schema q.sum_column) (unknown_column q.sum_column)
    t ← map_err (read q.sum_column) (type_at s.schema.columns (some idx))
    check_summable q.sum_column t
    (s', vals) ← map_err (read q.sum_column) (read_column s q.sum_column)
    summed ← summed_of t vals
    ok (s', summed))
]

unfoldable pub group_header : Query → Bytes
group_header q = elim q.group_agg [
  | AggregateKind.count_star ↦ count_header
  | AggregateKind.sum_column ↦ sum_header q.sum_column
]

-- Everything behind the reading of the columns.
unfoldable pub group_answer :
    FloatOps
    → Query
    → Segment
    → Decoded
    → Summed
    → Option (List Bool)
    → Result Error (Segment × Answer)
unfolding group_rows make_rows emit_groups group_header
group_answer fl q s keys summed selection = do
  g ←
      group_rows fl q.sum_column summed keys selection s.row_count 0
        (record { keys = []; table = [] })
  make_rows (length g.keys)
  rows ← emit_groups fl summed g.keys g.table
  ok (s, record { columns = q.group_by ∷ group_header q ∷ []; rows = rows; is_aggregate = false })

unfoldable pub exec_grouped :
    FloatOps → Segment → Query → Option (List Bool) → Result Error (Segment × Answer)
unfolding read_column read_summed group_answer
exec_grouped fl s q selection = do
  idx ← or_fail (column_index s.schema q.group_by) (unknown_column q.group_by)
  (s', keys) ← map_err (read q.group_by) (read_column s q.group_by)
  (s'', summed) ← read_summed s' q
  group_answer fl q s'' keys summed selection

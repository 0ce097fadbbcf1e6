-- ===== src/Tests/Answers.antt =====
-- Queries over a few rows, with a NaN among the floats.
use uniqcol.Common.{
  Bytes, [], arith, false, leb, length, ltb, none, not, ok, panic, refl, some, true, ℕ, ◌&&◌, ◌==◌,
  ◌∷◌, ◌≡◌,
}
use uniqcol.Query.{
  Answer, Comparison, FilterExpr, FilterOp, FloatOps, Query, ProjectionKind, AggregateKind,
  comparison, disj, child, end,
}
use uniqcol.Query.Evaluate.{evaluate, eval_comparison, combine}
use uniqcol.Query.Evaluate.Rows.{row_satisfies}
use uniqcol.Query.Evaluate.Trees.{evaluate_lem}
use uniqcol.Query.Execute.{execute}
use uniqcol.Query.Execute.Grouped.{count_answer, execute_count_grouped}
use uniqcol.Query.Group.{exec_grouped}
use uniqcol.Query.Group.Counts.{NanDiffers, row_counts}
use uniqcol.Query.Group.Nan.{exec_grouped_nan}
use uniqcol.Query.Parser.Where.Meaning.{holds}
use uniqcol.Storage.Segment.{Segment, int64s, float64s}
use uniqcol.Storage.Segment.Caching.{Filled, SameTable, decoded_rows}
use uniqcol.Query.Aggregate.{count_header}
use uniqcol.Storage.Segment.Read.{read_column}
use uniqcol.Storage.Types.{Value, ColumnType, column_index}

-- Floats that are equal when their bits are, but for one NaN.
abbrev nan : ℕ
nan = 0x7ff8_0000_0000_0001

abbrev pub by_bits : FloatOps
by_bits = record {
  float_eq = λ x y. x == y && not (y == nan);
  float_lt = λ x y. ltb x y;
  float_le = λ x y. leb x y;
  float_add = λ x y. x;
}

by_bits-NanDiffers : NanDiffers by_bits
by_bits-NanDiffers x y h = ground arith

abbrev col_a : Bytes
col_a = b'a' ∷ []

abbrev col_f : Bytes
col_f = b'f' ∷ []

-- The columns are 5, 7, 5 and NaN, 1, 2.
abbrev kept : Segment
kept = record {
  version = 2;
  schema = record {
    pk = col_a;
    columns =
        record { name = col_a; type = ColumnType.int64 }
        ∷ record { name = col_f; type = ColumnType.float64 }
        ∷ [];
  };
  row_count = 3;
  blocks = [];
  decoded = (col_a, int64s (5 ∷ 7 ∷ 5 ∷ [])) ∷ (col_f, float64s (nan ∷ 1 ∷ 2 ∷ [])) ∷ [];
  flags = 0;
  pk_name = [];
  bloom_filter = none;
}

kept-Filled : Filled kept
unfolding decoded_rows
kept-Filled = (refl, (refl, tt))

abbrev is : ℕ → Comparison
is n = record { column = col_a; op = FilterOp.eq; value = Value.int64 n; pos = 0 }

-- a = 7 OR a < 6
abbrev tree : FilterExpr
tree =
    disj (child (comparison (is 7)) (child (comparison (record (is 6) { op = FilterOp.lt })) end))

all_three : evaluate by_bits kept tree ≡ ok (kept, true ∷ true ∷ true ∷ [])
unfolding evaluate eval_comparison column_index combine
all_three = refl

evaluate_lem_example :
    (length (true ∷ true ∷ true ∷ []) ≡ kept.row_count)
    × (some true ≡ some (holds (row_satisfies by_bits kept 1) tree))
    × SameTable kept kept
evaluate_lem_example =
    evaluate_lem by_bits kept kept tree (true ∷ true ∷ true ∷ []) 1 kept-Filled (omega arith)
      all_three

abbrev by_a : Query
by_a = record {
  projection = ProjectionKind.grouped;
  columns = col_a ∷ [];
  sum_column = [];
  group_by = col_a;
  group_agg = AggregateKind.count_star;
  filter = some (comparison (is 5));
}

abbrev two_fives : Answer
two_fives = record {
  columns = col_a ∷ count_header ∷ [];
  rows = (Value.int64 5 ∷ Value.uint64 2 ∷ []) ∷ [];
  is_aggregate = false;
}

grouped_fives : execute by_bits kept by_a ≡ ok (kept, two_fives)
unfolding execute eval_comparison column_index
grouped_fives = refl

execute_count_grouped_example :
    (u : Segment) × (execute by_bits kept (record by_a { projection = ProjectionKind.count_star })
      ≡ ok (u, count_answer (row_counts two_fives.rows)))
execute_count_grouped_example =
    execute_count_grouped by_bits kept kept by_a two_fives by_bits-NanDiffers kept-Filled refl refl
      grouped_fives

abbrev by_f : Query
by_f = record by_a { columns = col_f ∷ []; group_by = col_f; filter = none }

f_found : column_index kept.schema col_f ≡ some 1
unfolding column_index
f_found = refl

f_read : read_column kept col_f ≡ ok (kept, float64s (nan ∷ 1 ∷ 2 ∷ []))
unfolding read_column
f_read = refl

exec_grouped_nan_example : exec_grouped by_bits kept by_f none ≡ panic
exec_grouped_nan_example =
    exec_grouped_nan by_bits kept kept by_f (nan ∷ 1 ∷ 2 ∷ []) 1 0 nan by_bits-NanDiffers
      kept-Filled refl f_found f_read refl refl

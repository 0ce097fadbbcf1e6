-- ===== src/Query/Execute.antt =====
-- `Execute` of query/exec.go.
pub mod Grouped
pub mod Projected
pub mod Filtered
pub mod Star
pub mod Sessions
use uniqcol.Common.{
  Bool, Bytes, List, Option, Result, [], map, none, ok, or_fail, some, ◌>>=◌, ◌>>◌, ◌∷◌,
}
use uniqcol.Query.{Query, ProjectionKind, FilterExpr, Answer, FloatOps, Error, unknown_column}
use uniqcol.Query.Evaluate.{evaluate}
use uniqcol.Query.Aggregate.{exec_count, exec_sum, exec_project}
use uniqcol.Query.Group.{exec_grouped}
use uniqcol.Storage.Segment.{Segment}
use uniqcol.Storage.Types.{Schema, Column, column_index}

-- `projCols`.
unfoldable pub projected_columns : Query → Schema → List Bytes
projected_columns q schema = elim q.projection [
  | ProjectionKind.columns ↦ q.columns
  | ProjectionKind.star ↦ map (λ (c : Column). c.name) schema.columns
  | ProjectionKind.sum_column ↦ q.sum_column ∷ []
  | _ ↦ []
]

unfoldable pub check_columns : Schema → List Bytes → Result Error (Unit {0})
check_columns schema [] = ok tt
check_columns schema (name ∷ names) = do
  idx ← or_fail (column_index schema name) (unknown_column name)
  check_columns schema names

-- The selection, `none` when there is no WHERE.
unfoldable pub select_rows :
    FloatOps → Segment → Option FilterExpr → Result Error (Segment × Option (List Bool))
unfolding evaluate
select_rows fl s none = ok (s, none)
select_rows fl s (some e) = do (s', selection) ← evaluate fl s e; ok (s', some selection)

-- The switch on the kind of the projection.
unfoldable pub dispatch :
    FloatOps
    → Segment
    → Query
    → List Bytes
    → Option (List Bool)
    → ProjectionKind
    → Result Error (Segment × Answer)
unfolding exec_count exec_sum exec_project exec_grouped
dispatch fl s q cols selection ProjectionKind.count_star = ok (s, exec_count s selection)
dispatch fl s q cols selection ProjectionKind.sum_column = exec_sum fl s q.sum_column selection
dispatch fl s q cols selection ProjectionKind.columns = exec_project s cols selection
dispatch fl s q cols selection ProjectionKind.star = exec_project s cols selection
dispatch fl s q cols selection ProjectionKind.grouped = exec_grouped fl s q selection

unfoldable pub execute : FloatOps → Segment → Query → Result Error (Segment × Answer)
unfolding projected_columns check_columns select_rows dispatch
execute fl s q = do
  check_columns s.schema (projected_columns q s.schema)
  (s', selection) ← select_rows fl s q.filter
  dispatch fl s' q (projected_columns q s.schema) selection q.projection

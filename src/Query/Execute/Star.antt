-- ===== src/Query/Execute/Star.antt =====
-- `SELECT *` over the rows that a segment stores.
use uniqcol.Common.{
  All, All-imp, Bool, Bool-cases, Bytes, List, Option, Option-cases, [], ap, arith, drop, false,
  get_elem?, get_or-get_elem?, inl, inr, length, length-map, map, ok, refl, some, subst, suc, sym,
  ℕ, ◌*◌, ◌+◌, ◌∙◌, ◌∷◌, ◌≡◌, ◌≤◌, ◌⊎◌,
}
use uniqcol.Storage.Codec.{max_alloc}
use uniqcol.Query.Execute.Grouped.{select_rows-Selects, exec_count_answer}
use uniqcol.Query.Aggregate.Rows.{length-rows}
use uniqcol.Query.Aggregate.{exec_count}
use uniqcol.Storage.Types.{Schema, column_index}
use uniqcol.Storage.Segment.Stored.{Stores, Stores-SameTable}
use uniqcol.Storage.Segment.Caching.{Filled}
use uniqcol.Storage.Segment.{Segment}
use uniqcol.Query.Execute.Projected.{exec_project-Stores, project_rows-matching}
use uniqcol.Query.Execute.Grouped.{count_answer}
use uniqcol.Query.Execute.Filtered.{meets_filter, select_rows-Picks}
use uniqcol.Query.Execute.{projected_columns, check_columns, select_rows, dispatch, execute}
use uniqcol.Query.Aggregate.{exec_project}
use uniqcol.Query.{ProjectionKind, Query, Answer, FloatOps}
use uniqcol.Query.Group.Rounds.{get_elem?_beyond}
use uniqcol.Query.Aggregate.Rows.{drop_cons, drop-length}
use uniqcol.Storage.Buffer.Cells.{cell}
use uniqcol.Storage.Types.Schemas.{column_index-none, Fresh-get_elem?}
use uniqcol.Storage.Types.{Column, Row, Value}
use uniqcol.Query.Execute.Projected.{Located, cells_at, matching}

-- The positions of columns from position `k` on.
abbrev positions : ℕ → List Column → List ℕ
positions k [] = []
positions k (c ∷ cs) = k ∷ positions (k + 1) cs

-- `SELECT *` reads every column, in schema order.
Located-star :
    (cs suffix : List Column) (k : ℕ)
    → ((j : ℕ) (c : Column) → get_elem? suffix j ≡ some c → get_elem? cs (k + j) ≡ some c)
    → Located cs (map (λ (c : Column). c.name) suffix) (positions k suffix)
Located-star cs [] k h = tt
Located-star cs (c ∷ suffix) k h = (
  (c, ap (get_elem? cs) (omega arith) ∙ h 0 c refl, refl),
  Located-star cs suffix (k + 1) (λ j d at. ap (get_elem? cs) (omega arith) ∙ h (suc j) d at),
)

cells_at-positions :
    (cs : List Column) (k : ℕ) (row : Row)
    → k + length cs ≡ length row
    → cells_at (positions k cs) row ≡ drop k row
cells_at-positions [] k row size = sym (drop-length row k (omega (arith, size)))
cells_at-positions (c ∷ cs) k row size = elim (Option-cases (get_elem? row k)) [
  | inl beyond ↦ absurd (omega (arith, get_elem?_beyond row k beyond, size))
  | inr (v, at) ↦
      let next : k + 1 ≡ suc k = omega arith in
      ap (λ vs. cell k row ∷ vs) (cells_at-positions cs (k + 1) row (omega arith))
      ∙ ap (λ j. cell k row ∷ drop j row) next
      ∙ ap (λ w. w ∷ drop (suc k) row) (get_or-get_elem? row k v Value.nil at)
      ∙ sym (drop_cons row k v at)
]

map-same : (f : Row → Row) (rows : List Row) → All (λ row. f row ≡ row) rows → map f rows ≡ rows
map-same f [] h = refl
map-same f (row ∷ rows) (h, hs) = rw (h, map-same f rows hs) refl

pub All-matching :
    (P : Row → Type 0) (test : Row → Bool) (rows : List Row)
    → All P rows
    → All P (matching test rows)
unfolding matching
All-matching P test [] h = tt
All-matching P test (row ∷ rows) (h, hs) = elim (Bool-cases (test row)) [
  | inl yes_row ↦ rw yes_row (h, All-matching P test rows hs)
  | inr no_row ↦ rw no_row (All-matching P test rows hs)
]

column_index-get_elem? :
    (s : Schema) (k : ℕ) (c : Column)
    → get_elem? s.columns k ≡ some c
    → (i : ℕ) × (column_index s c.name ≡ some i)
column_index-get_elem? s k c at = elim (Option-cases (column_index s c.name)) [
  | inr (i, found) ↦ (i, found)
  | inl absent ↦
      absurd (Fresh-get_elem? k c c.name s.columns (column_index-none s c.name absent) at refl)
]

check_columns-Located :
    (s : Schema) (ns : List Bytes) (ks : List ℕ)
    → Located s.columns ns ks
    → check_columns s ns ≡ ok tt
unfolding check_columns
check_columns-Located s [] [] h = refl
check_columns-Located s [] (k ∷ ks) h = elim h [ ]
check_columns-Located s (n ∷ ns) [] h = elim h [ ]
check_columns-Located s (n ∷ ns) (k ∷ ks) ((c, at, name), h) =
    let (i, found) = column_index-get_elem? s k c at in
    let it = ap (column_index s) (sym name) ∙ found in rw (it, check_columns-Located s ns ks h) refl

-- Where the projection is of columns, `Execute` is `execProject` on the selection.
execute_projects :
    (fl : FloatOps) (s t : Segment) (q : Query) (ns : List Bytes) (selection : Option (List Bool))
    (kind : ProjectionKind)
    → (kind ≡ ProjectionKind.star) ⊎ (kind ≡ ProjectionKind.columns)
    → q.projection ≡ kind
    → projected_columns q s.schema ≡ ns
    → check_columns s.schema ns ≡ ok tt
    → select_rows fl s q.filter ≡ ok (t, selection)
    → execute fl s q ≡ exec_project t ns selection
unfolding execute dispatch
execute_projects fl s t q ns selection ProjectionKind.star is_project is names checked selected =
    rw (execute, names, checked, selected, is) refl
execute_projects fl s t q ns selection ProjectionKind.columns is_project is names checked selected =
    rw (execute, names, checked, selected, is) refl
execute_projects fl s t q ns selection _ is_project is names checked selected =
    let no : ⊥ = elim is_project [ inl e ↦ cc e | inr e ↦ cc e ] in absurd no

-- The rows that an answer holds: those that meet the clause, with the cells at the positions.
abbrev pub projected : List Bytes → List ℕ → List Row → Answer
projected ns ks rows = record { columns = ns; rows = map (cells_at ks) rows; is_aggregate = false }

execute-Located :
    (fl : FloatOps) (s u : Segment) (rows : List Row) (q : Query) (ns : List Bytes) (ks : List ℕ)
    (selection : Option (List Bool))
    → Filled s
    → Stores s rows
    → (q.projection ≡ ProjectionKind.star) ⊎ (q.projection ≡ ProjectionKind.columns)
    → projected_columns q s.schema ≡ ns
    → Located s.schema.columns ns ks
    → select_rows fl s q.filter ≡ ok (u, selection)
    → 24 * length (matching (meets_filter fl s.schema q.filter) rows) ≤ max_alloc
    → (v : Segment) × (execute fl s q
        ≡ ok (v, projected ns ks (matching (meets_filter fl s.schema q.filter) rows)))
execute-Located fl s u rows q ns ks selection full h kind names at selected room =
    let (same, full', picks) = select_rows-Picks fl s u rows q.filter selection full h selected in
    let (v, made) =
      exec_project-Stores u rows ns ks selection (meets_filter fl s.schema q.filter) full'
        (Stores-SameTable s u rows same h)
        (subst (λ (w : Schema). Located w.columns ns ks) (sym same.1) at) picks
        (select_rows-Selects fl s u q.filter selection full selected).1 room in
    (
      v,
      execute_projects fl s u q ns selection q.projection kind refl names
            (check_columns-Located s.schema ns ks at) selected
          ∙ made,
    )

pub execute_star :
    (fl : FloatOps) (s u : Segment) (rows : List Row) (q : Query) (selection : Option (List Bool))
    → Filled s
    → Stores s rows
    → All (λ row. length row ≡ length s.schema.columns) rows
    → q.projection ≡ ProjectionKind.star
    → select_rows fl s q.filter ≡ ok (u, selection)
    → 24 * length (matching (meets_filter fl s.schema q.filter) rows) ≤ max_alloc
    → (v : Segment) × (execute fl s q
        ≡ ok (
          v,
          record {
            columns = map (λ (c : Column). c.name) s.schema.columns;
            rows = matching (meets_filter fl s.schema q.filter) rows;
            is_aggregate = false;
          },
        ))
unfolding projected_columns
execute_star fl s u rows q selection full h sizes star selected room =
    let cs = s.schema.columns in
    let test = meets_filter fl s.schema q.filter in
    let (v, made) =
      execute-Located fl s u rows q (map (λ (c : Column). c.name) cs) (positions 0 cs) selection
        full h (inl star) (rw star refl)
        (Located-star cs cs 0 (λ j c at. ap (get_elem? cs) (omega arith) ∙ at)) selected room in
    let whole = map-same (cells_at (positions 0 cs)) (matching test rows) (
      All-matching _ test rows
        (All-imp _ _ rows (λ row size. cells_at-positions cs 0 row (omega (arith, size))) sizes)) in
    (
      v,
      made
          ∙ ap
              (λ all. ok (
                v,
                record {
                  columns = map (λ (c : Column). c.name) cs;
                  rows = all;
                  is_aggregate = false;
                },
              ))
              whole,
    )

-- A column that is named has the cells of the matching rows.
pub execute_columns :
    (fl : FloatOps) (s u : Segment) (rows : List Row) (q : Query) (ks : List ℕ)
    (selection : Option (List Bool))
    → Filled s
    → Stores s rows
    → q.projection ≡ ProjectionKind.columns
    → Located s.schema.columns q.columns ks
    → select_rows fl s q.filter ≡ ok (u, selection)
    → 24 * length (matching (meets_filter fl s.schema q.filter) rows) ≤ max_alloc
    → (v : Segment) × (execute fl s q
        ≡ ok (v, projected q.columns ks (matching (meets_filter fl s.schema q.filter) rows)))
unfolding projected_columns
execute_columns fl s u rows q ks selection full h is at selected room =
    execute-Located fl s u rows q q.columns ks selection full h (inr is) (rw is refl) at selected
      room

execute_counts :
    (fl : FloatOps) (s u : Segment) (q : Query) (selection : Option (List Bool))
    → q.projection ≡ ProjectionKind.count_star
    → select_rows fl s q.filter ≡ ok (u, selection)
    → execute fl s q ≡ ok (u, exec_count u selection)
unfolding execute projected_columns check_columns dispatch
execute_counts fl s u q selection is selected = rw (execute, is, selected) refl

-- `COUNT(*)` is the number of the matching rows.
pub execute_count_star :
    (fl : FloatOps) (s u : Segment) (rows : List Row) (q : Query) (selection : Option (List Bool))
    → Filled s
    → Stores s rows
    → q.projection ≡ ProjectionKind.count_star
    → select_rows fl s q.filter ≡ ok (u, selection)
    → execute fl s q
      ≡ ok (u, count_answer (length (matching (meets_filter fl s.schema q.filter) rows)))
execute_count_star fl s u rows q selection full h is selected =
    let test = meets_filter fl s.schema q.filter in
    let (same, full', picks) = select_rows-Picks fl s u rows q.filter selection full h selected in
    let (_, size) = select_rows-Selects fl s u q.filter selection full selected in
    let stores = Stores-SameTable s u rows same h in
    let made =
      project_rows-matching rows [] [] selection test u.row_count 0 tt picks
        (omega (arith, stores.count)) in
    let counted = length-rows [] selection u.row_count _ size made in
    execute_counts fl s u q selection is selected
    ∙ ap (λ a. ok (u, a)) (exec_count_answer u selection)
    ∙ ap (λ n. ok (u, count_answer n)) (sym counted ∙ length-map (cells_at []) (matching test rows))

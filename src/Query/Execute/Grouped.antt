-- ===== src/Query/Execute/Grouped.antt =====
-- A grouped count against the count of all rows.
use uniqcol.Common.{
  >>=-eq-ok, Bool, List, Option, [], ap, map_err, map_err-eq-ok, none, ok, ok-injective, or_fail,
  refl, some, subst, sym, true, ℕ, ◌>>=◌, ◌∙◌, ◌∷◌, ◌≡◌,
}
use uniqcol.Query.Group.Rounds.{read_summed_count}
use uniqcol.Storage.Segment.Read.{read_column}
use uniqcol.Storage.Segment.Caching.{Filled, read_column-SameTable}
use uniqcol.Query.Group.Counts.{NanDiffers, row_counts, row_counts-group_answer}
use uniqcol.Query.Evaluate.Trees.{evaluate-Answers}
use uniqcol.Query.Evaluate.{evaluate}
use uniqcol.Query.Aggregate.Rows.{Selects}
use uniqcol.Query.{Query, ProjectionKind, AggregateKind, FilterExpr, Answer, FloatOps, read}
use uniqcol.Query.Group.{exec_grouped, group_answer, read_summed, Summed}
use uniqcol.Query.Aggregate.{exec_count, count_header, estimate_rows}
use uniqcol.Query.Execute.{projected_columns, check_columns, select_rows, dispatch, execute}
use uniqcol.Storage.Segment.{Segment}
use uniqcol.Storage.Types.{Value, column_index}

row_counts-exec_grouped :
    (fl : FloatOps) (s t : Segment) (q : Query) (selection : Option (List Bool)) (a : Answer)
    → NanDiffers fl
    → Filled s
    → Selects selection s.row_count
    → q.group_agg ≡ AggregateKind.count_star
    → exec_grouped fl s q selection ≡ ok (t, a)
    → row_counts a.rows ≡ estimate_rows s.row_count selection
unfolding exec_grouped
row_counts-exec_grouped fl s t q selection a nan full size count e =
    let (idx, _, e₁) = >>=-eq-ok (or_fail (column_index s.schema q.group_by) _) _ e in
    let ((s', keys), got, e₂) =
      >>=-eq-ok (map_err (read q.group_by) (read_column s q.group_by)) _ e₁ in
    let ((rows, schema, vals), _, _) =
      read_column-SameTable s s' q.group_by keys full (map_err-eq-ok _ _ got) in
    let ((s'', summed), summing, e₃) = >>=-eq-ok (read_summed s' q) _ e₂ in
    let same = ok-injective (sym summing ∙ read_summed_count s' q count) in
    let e₄ =
      subst
        (λ (p : Segment × uniqcol.Query.Group.Summed).
          group_answer fl q p.0 keys p.1 selection ≡ ok (t, a))
        same e₃ in
    row_counts-group_answer fl q s' t keys selection a nan
      (subst (Selects selection) (sym rows) size) e₄
    ∙ ap (λ n. estimate_rows n selection) rows

-- A selection has an entry for each row.
pub select_rows-Selects :
    (fl : FloatOps) (s t : Segment) (filter : Option FilterExpr) (selection : Option (List Bool))
    → Filled s
    → select_rows fl s filter ≡ ok (t, selection)
    → Filled t × Selects selection t.row_count
unfolding select_rows
select_rows-Selects fl s t none selection full e =
    subst (λ (p : Segment × Option (List Bool)). Filled p.0 × Selects p.1 p.0.row_count)
      (ok-injective e) (full, tt)
select_rows-Selects fl s t (some f) selection full e =
    let ((s', sel), evaluated, e₁) = >>=-eq-ok (evaluate fl s f) _ e in
    let ((rows, _, _), full', (size, _)) = evaluate-Answers fl s s' f sel full evaluated in
    subst (λ (p : Segment × Option (List Bool)). Filled p.0 × Selects p.1 p.0.row_count)
      (ok-injective e₁) (full', size ∙ sym rows)

abbrev pub count_answer : ℕ → Answer
count_answer n = record {
  columns = count_header ∷ [];
  rows = (Value.uint64 n ∷ []) ∷ [];
  is_aggregate = true;
}

execute_is_grouped :
    (fl : FloatOps) (s : Segment) (q : Query)
    → q.projection ≡ ProjectionKind.grouped
    → execute fl s q ≡ (select_rows fl s q.filter >>= λ p. exec_grouped fl p.0 q p.1)
unfolding execute projected_columns check_columns dispatch
execute_is_grouped fl s q h = rw (dispatch, projected_columns, h) refl

pub exec_count_answer :
    (s : Segment) (selection : Option (List Bool))
    → exec_count s selection ≡ count_answer (estimate_rows s.row_count selection)
unfolding exec_count estimate_rows
exec_count_answer s none = refl
exec_count_answer s (some bs) = refl

execute_grouped :
    (fl : FloatOps) (s t : Segment) (q : Query) (a : Answer)
    → q.projection ≡ ProjectionKind.grouped
    → execute fl s q ≡ ok (t, a)
    → (p : Segment × Option (List Bool)) × (select_rows fl s q.filter ≡ ok p)
      × (exec_grouped fl p.0 q p.1 ≡ ok (t, a))
unfolding execute projected_columns check_columns dispatch
execute_grouped fl s t q a h e =
    let (p, selected, made) =
      >>=-eq-ok (select_rows fl s q.filter) _ (sym (execute_is_grouped fl s q h) ∙ e) in
    (p, selected, made)

execute_count :
    (fl : FloatOps) (s t : Segment) (q : Query) (selection : Option (List Bool))
    → select_rows fl s q.filter ≡ ok (t, selection)
    → execute fl s (record q { projection = ProjectionKind.count_star })
      ≡ ok (t, exec_count t selection)
unfolding execute projected_columns check_columns dispatch
execute_count fl s t q selection h = rw h refl

-- Where a grouped `COUNT(*)` has an answer, the plain `COUNT(*)` with the same WHERE clause has one
-- too, and it is the sum of the counts of the groups. A NaN is assumed to equal no number, and the
-- columns that the segment keeps decoded have a value for each row.
pub execute_count_grouped :
    (fl : FloatOps) (s t : Segment) (q : Query) (a : Answer)
    → NanDiffers fl
    → Filled s
    → q.projection ≡ ProjectionKind.grouped
    → q.group_agg ≡ AggregateKind.count_star
    → execute fl s q ≡ ok (t, a)
    → (u : Segment) × (execute fl s (record q { projection = ProjectionKind.count_star })
        ≡ ok (u, count_answer (row_counts a.rows)))
unfolding exec_count
execute_count_grouped fl s t q a nan full grouped count e =
    let ((u, selection), selected, made) = execute_grouped fl s t q a grouped e in
    let (full', size) = select_rows-Selects fl s u q.filter selection full selected in
    let total = row_counts-exec_grouped fl u t q selection a nan full' size count made in
    (
      u,
      execute_count fl s u q selection selected
          ∙ ap (λ (b : Answer). ok (u, b))
              (exec_count_answer u selection ∙ ap count_answer (sym total)),
    )

-- ===== src/Query/Execute/Filtered.antt =====
-- A WHERE clause against the rows that a segment stores.
use uniqcol.Common.{
  >>=-eq-ok, Bool, List, Option, Option-cases, [], ap, arith, false, get_elem?, inl, inr, length,
  none, not, ok, ok-injective, refl, some, subst, suc, sym, true, zero, ℕ, ◌<◌, ◌∙◌, ◌∷◌, ◌≡◌,
}
use uniqcol.Query.Execute.{select_rows}
use uniqcol.Query.Evaluate.Trees.{evaluate-Answers}
use uniqcol.Query.Evaluate.{evaluate}
use uniqcol.Storage.Types.Schemas.{column_index-column}
use mathlib.Core.Path.{fun_ext}
use uniqcol.Query.{Comparison, FilterExpr, FloatOps}
use uniqcol.Query.Aggregate.{skipped}
use uniqcol.Query.Evaluate.Rows.{row_satisfies, satisfies, tested}
use uniqcol.Query.Parser.Where.Meaning.{holds}
use uniqcol.Storage.Buffer.Cells.{cell}
use uniqcol.Storage.Segment.{Segment}
use uniqcol.Storage.Segment.Caching.{Filled, SameTable, values_at}
use uniqcol.Storage.Segment.Stored.{Stores, cells_in}
use uniqcol.Storage.Types.{Row, Schema, column_index}
use uniqcol.Query.Execute.Projected.{Picks, get_elem?-map}

-- A row against a comparison: the cell of the column that `ColumnIndex` finds.
unfoldable pub meets : FloatOps → Schema → Row → Comparison → Bool
unfolding satisfies
meets fl schema row c = elim (column_index schema c.column) [
  | none ↦ false
  | some i ↦ satisfies fl c (cell i row)
]

-- A row against a WHERE clause, if there is one.
unfoldable pub meets_filter : FloatOps → Schema → Option FilterExpr → Row → Bool
unfolding meets holds
meets_filter fl schema none row = true
meets_filter fl schema (some e) row = holds (meets fl schema row) e

meets_missing :
    (fl : FloatOps) (schema : Schema) (row : Row) (c : Comparison)
    → column_index schema c.column ≡ none
    → meets fl schema row c ≡ false
unfolding meets
meets_missing fl schema row c h = rw (meets, h) refl

meets_found :
    (fl : FloatOps) (schema : Schema) (row : Row) (c : Comparison) (k : ℕ)
    → column_index schema c.column ≡ some k
    → meets fl schema row c ≡ satisfies fl c (cell k row)
unfolding meets
meets_found fl schema row c k h = rw (meets, h) refl

satisfies_row :
    (fl : FloatOps) (s : Segment) (rows : List Row) (i : ℕ) (row : Row) (c : Comparison)
    → Stores s rows
    → get_elem? rows i ≡ some row
    → row_satisfies fl s i c ≡ meets fl s.schema row c
unfolding row_satisfies
satisfies_row fl s rows i row c h at = elim (Option-cases (column_index s.schema c.column)) [
  | inl absent ↦
      ap (λ vs. tested (satisfies fl c) vs i) (h.missing c.column absent)
      ∙ sym (meets_missing fl s.schema row c absent)
  | inr (k, found) ↦
      let (d, at_k, name) = column_index-column s.schema c.column k found in
      let (vals, read_it, cells) = h.columns k d at_k in
      let it : values_at s c.column ≡ ok vals = ap (values_at s) (sym name) ∙ read_it in
      ap (λ vs. tested (satisfies fl c) vs i) (ap cells_in it ∙ cells)
      ∙ ap (λ v. elim v [ none ↦ false | some w ↦ satisfies fl c w ])
          (get_elem?-map (cell k) rows i row at)
      ∙ sym (meets_found fl s.schema row c k found)
]

skipped-some :
    (bs : List Bool) (i : ℕ) (b : Bool) → get_elem? bs i ≡ some b → skipped (some bs) i ≡ ok (not b)
unfolding skipped
skipped-some bs i b h = rw (skipped, h) refl

get_elem?_below {ℓ} :
    {A : Type ℓ} (xs : List A) (i : ℕ) (x : A) → get_elem? xs i ≡ some x → i < length xs
get_elem?_below [] i x h = cc
get_elem?_below (y ∷ xs) zero x h = omega arith
get_elem?_below (y ∷ xs) (suc i) x h = omega (arith, get_elem?_below xs i x h)

-- The selection of a WHERE clause picks the rows that meet it.
pub select_rows-Picks :
    (fl : FloatOps) (s t : Segment) (rows : List Row) (filter : Option FilterExpr)
    (selection : Option (List Bool))
    → Filled s
    → Stores s rows
    → select_rows fl s filter ≡ ok (t, selection)
    → SameTable s t × Filled t × Picks selection (meets_filter fl s.schema filter) rows
unfolding select_rows meets_filter skipped
select_rows-Picks fl s t rows none selection full h e =
    subst
      (λ (p : Segment × Option (List Bool)).
        SameTable s p.0 × Filled p.0 × Picks p.1 (λ row. true) rows)
      (ok-injective e) ((refl, refl, λ n. refl), full, λ i row at. refl)
select_rows-Picks fl s t rows (some f) selection full h e =
    let ((s', bs), evaluated, e₁) = >>=-eq-ok (evaluate fl s f) _ e in
    let (same, full', (size, at_row)) = evaluate-Answers fl s s' f bs full evaluated in
    subst
      (λ (p : Segment × Option (List Bool)).
        SameTable s p.0 × Filled p.0 × Picks p.1 (λ row. holds (meets fl s.schema row) f) rows)
      (ok-injective e₁)
      (
        same,
        full',
        λ i row at.
            let below = get_elem?_below rows i row at in
            skipped-some bs i (holds (meets fl s.schema row) f) (
              at_row i (omega (arith, below, h.count))
              ∙ ap (λ sat. some (holds sat f))
                  (fun_ext (λ c. satisfies_row fl s rows i row c h at))),
      )

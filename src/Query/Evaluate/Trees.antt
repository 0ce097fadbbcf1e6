-- ===== src/Query/Evaluate/Trees.antt =====
-- The selection that `evaluate` computes, against the value of the tree at each row.
use uniqcol.Common.{
  >>=-eq-ok, Bool, Bool-cases, List, [], and-true, and_assoc, ap, arith, get_elem?, inl, inr,
  length, map_err, map_err-eq-ok, ok, ok-injective, or-false, or_assoc, or_fail, refl, some,
  some-injective, subst, suc, sym, zero, ℕ, ◌&&◌, ◌<◌, ◌||◌, ◌∙◌, ◌∷◌, ◌≡◌,
}
use uniqcol.Storage.Types.{column_index}
use uniqcol.Storage.Segment.Read.{type_at, read_column}
use uniqcol.Storage.Buffer.{len}
use uniqcol.Storage.Segment.Caching.{
  Filled, SameTable, decoded_rows, values_at_read, read_column-SameTable,
}
use uniqcol.Query.Parser.Where.Meaning.{holds, all_hold, some_holds}
use uniqcol.Query.Evaluate.Rows.{row_satisfies, satisfies, tested, Tested, apply_comparison-Tested}
use uniqcol.Storage.Segment.Stored.{cells_in}
use uniqcol.Query.Evaluate.{
  eval_comparison, combine, check_literal_type, apply_comparison, evaluate, evaluate_rest, decides,
}
use mathlib.Core.Path.{fun_ext}
use uniqcol.Query.{
  read, Comparison, FilterExpr, FilterExprs, FloatOps, comparison, conj, disj, malformed, end,
  child,
}
use uniqcol.Storage.Segment.{Segment, Decoded}

-- A selection given by a function of the row.
abbrev pub Describes : ℕ → List Bool → (ℕ → Bool) → Type 0
Describes n selection f =
    (length selection ≡ n) × ((i : ℕ) → i < n → get_elem? selection i ≡ some (f i))

-- The two operands at a position, and their combination there.
abbrev Combined : (Bool → Bool → Bool) → List Bool → List Bool → List Bool → Type 0
Combined op acc next out =
    (i : ℕ) (a b : Bool)
    → get_elem? acc i ≡ some a
    → get_elem? next i ≡ some b
    → get_elem? out i ≡ some (op a b)

combined :
    (op : Bool → Bool → Bool) (x y : Bool) (acc next out : List Bool)
    → Combined op acc next out
    → Combined op (x ∷ acc) (y ∷ next) (op x y ∷ out)
combined op x y acc next out at zero a b h k = cc (some-injective _ _ h, some-injective _ _ k)
combined op x y acc next out at (suc i) a b h k = at i a b h k

combine_at :
    (op : Bool → Bool → Bool) (acc next out : List Bool)
    → combine op acc next ≡ ok out
    → (length out ≡ length acc) × Combined op acc next out
unfolding combine
combine_at op [] next out e = (ap length (sym (ok-injective e)), λ i a b h k. cc)
combine_at op (x ∷ acc) [] out e = elim (Bool-cases (decides op x)) [
  | inr open_end ↦ cc (rw (combine, open_end) at e)
  | inl decided ↦
      let (rest, made, e₁) = >>=-eq-ok (combine op acc []) _ (rw (combine, decided) at e) in
      (
        ap length (sym (ok-injective e₁)) ∙ ap suc (combine_at op acc [] rest made).0,
        λ i a b h k. cc,
      )
]
combine_at op (x ∷ acc) (y ∷ next) out e =
    let (rest, made, e₁) = >>=-eq-ok (combine op acc next) _ e in
    let (size, at) = combine_at op acc next rest made in
    subst
      (λ (all : List Bool). (length all ≡ suc (length acc)) × Combined op (x ∷ acc) (y ∷ next) all)
      (ok-injective e₁) (ap suc size, combined op x y acc next rest at)

combine-Describes :
    (op : Bool → Bool → Bool) (n : ℕ) (acc next out : List Bool) (f g : ℕ → Bool)
    → Describes n acc f
    → Describes n next g
    → combine op acc next ≡ ok out
    → Describes n out (λ i. op (f i) (g i))
combine-Describes op n acc next out f g (size, at) (size', at') e =
    let (same, both) = combine_at op acc next out e in
    (same ∙ size, λ i h. both i (f i) (g i) (at i h) (at' i h))

-- The children, joined from the left.
unfoldable fold_children : (Bool → Bool → Bool) → (Comparison → Bool) → Bool → FilterExprs → Bool
unfolding holds
fold_children op sat b end = b
fold_children op sat b (child e es) = fold_children op sat (op b (holds sat e)) es

fold_children-and :
    (sat : Comparison → Bool) (b : Bool) (es : FilterExprs)
    → fold_children ◌&&◌ sat b es ≡ (b && all_hold sat es)
unfolding fold_children all_hold
fold_children-and sat b end = sym (and-true b)
fold_children-and sat b (child e es) =
    fold_children-and sat (b && holds sat e) es ∙ and_assoc b (holds sat e) (all_hold sat es)

fold_children-or :
    (sat : Comparison → Bool) (b : Bool) (es : FilterExprs)
    → fold_children ◌||◌ sat b es ≡ (b || some_holds sat es)
unfolding fold_children some_holds
fold_children-or sat b end = sym (or-false b)
fold_children-or sat b (child e es) =
    fold_children-or sat (b || holds sat e) es ∙ or_assoc b (holds sat e) (some_holds sat es)

SameTable-trans : (s t u : Segment) → SameTable s t → SameTable t u → SameTable s u
SameTable-trans s t u (rows, schema, vals) (rows', schema', vals') =
    (rows' ∙ rows, schema' ∙ schema, λ name. vals' name ∙ vals name)

row_satisfies-SameTable :
    (fl : FloatOps) (s t : Segment) (i : ℕ)
    → SameTable s t
    → row_satisfies fl t i ≡ row_satisfies fl s i
unfolding row_satisfies
row_satisfies-SameTable fl s t i (rows, schema, vals) =
    fun_ext (λ c. ap (λ m. tested (satisfies fl c) (cells_in m) i) (vals c.column))

-- The selection of a tree, with the segment that is left.
abbrev pub Answers : Segment → Segment → List Bool → (ℕ → Bool) → Type 0
Answers s t selection f = SameTable s t × Filled t × Describes s.row_count selection f

column_Describes :
    (fl : FloatOps) (s t : Segment) (c : Comparison) (vals : Decoded) (selection : List Bool)
    → read_column s c.column ≡ ok (t, vals)
    → decoded_rows vals ≡ s.row_count
    → Tested fl c vals selection
    → Describes s.row_count selection (λ i. row_satisfies fl s i c)
unfolding row_satisfies
column_Describes fl s t c vals selection found size (len, at) = (
  len ∙ size,
  λ i h.
      at i (omega (arith, size))
      ∙ ap (λ m. some (tested (satisfies fl c) (cells_in m) i))
          (sym (values_at_read s t c.column vals found)),
)

eval_comparison-Answers :
    (fl : FloatOps) (s t : Segment) (c : Comparison) (selection : List Bool)
    → Filled s
    → eval_comparison fl s c ≡ ok (t, selection)
    → Answers s t selection (λ i. row_satisfies fl s i c)
unfolding eval_comparison
eval_comparison-Answers fl s t c selection full e =
    let (idx, _, e₁) = >>=-eq-ok (or_fail (column_index s.schema c.column) _) _ e in
    let (u, _, e₂) =
      >>=-eq-ok (map_err (read c.column) (type_at s.schema.columns (some idx))) _ e₁ in
    let (_, _, e₃) = >>=-eq-ok (check_literal_type c u) _ e₂ in
    let ((s', vals), got, e₄) = >>=-eq-ok (map_err (read c.column) (read_column s c.column)) _ e₃ in
    let (sel, applied, e₅) = >>=-eq-ok (apply_comparison fl vals u c) _ e₄ in
    let found = map_err-eq-ok _ _ got in
    let (same, full', size) = read_column-SameTable s s' c.column vals full found in
    subst (λ (p : Segment × List Bool). Answers s p.0 p.1 (λ i. row_satisfies fl s i c))
      (ok-injective e₅)
      (
        same,
        full',
        column_Describes fl s s' c vals sel found size
            (apply_comparison-Tested fl vals u c sel applied),
      )

-- What was answered from the segment that a first reading left.
Answers-after :
    (s t u : Segment) (selection : List Bool) (f g : ℕ → Bool)
    → SameTable s t
    → ((i : ℕ) → f i ≡ g i)
    → Answers t u selection f
    → Answers s u selection g
Answers-after s t u selection f g same equal (same', full, (size, at)) = (
  SameTable-trans s t u same same',
  full,
  (size ∙ same.0, λ i h. at i (omega (arith, same.0)) ∙ ap some (equal i)),
)

Describes-rows :
    (s t : Segment) (selection : List Bool) (f : ℕ → Bool)
    → SameTable s t
    → Describes s.row_count selection f
    → Describes t.row_count selection f
Describes-rows s t selection f same d = subst (λ n. Describes n selection f) (sym same.0) d

mutual
  unfolding evaluate holds evaluate_rest fold_children

  pub evaluate-Answers :
      (fl : FloatOps) (s t : Segment) (e : FilterExpr) (selection : List Bool)
      → Filled s
      → evaluate fl s e ≡ ok (t, selection)
      → Answers s t selection (λ i. holds (row_satisfies fl s i) e)
  evaluate-Answers fl s t (comparison c) selection full h =
      eval_comparison-Answers fl s t c selection full h
  evaluate-Answers fl s t (conj end) selection full h = cc
  evaluate-Answers fl s t (conj (child e es)) selection full h =
      let ((s', acc), first, h₁) = >>=-eq-ok (evaluate fl s e) _ h in
      let (same, full', d) = evaluate-Answers fl s s' e acc full first in
      Answers-after s s' t selection _ _ same
        (λ i.
          fold_children-and (row_satisfies fl s' i) (holds (row_satisfies fl s i) e) es
          ∙ ap (λ sat. holds (row_satisfies fl s i) e && all_hold sat es)
              (row_satisfies-SameTable fl s s' i same))
        (evaluate_rest-Answers fl ◌&&◌ s' t acc selection es _ full'
          (Describes-rows s s' acc _ same d) h₁)
  evaluate-Answers fl s t (disj end) selection full h = cc
  evaluate-Answers fl s t (disj (child e es)) selection full h =
      let ((s', acc), first, h₁) = >>=-eq-ok (evaluate fl s e) _ h in
      let (same, full', d) = evaluate-Answers fl s s' e acc full first in
      Answers-after s s' t selection _ _ same
        (λ i.
          fold_children-or (row_satisfies fl s' i) (holds (row_satisfies fl s i) e) es
          ∙ ap (λ sat. holds (row_satisfies fl s i) e || some_holds sat es)
              (row_satisfies-SameTable fl s s' i same))
        (evaluate_rest-Answers fl ◌||◌ s' t acc selection es _ full'
          (Describes-rows s s' acc _ same d) h₁)
  evaluate-Answers fl s t malformed selection full h = cc

  evaluate_rest-Answers :
      (fl : FloatOps) (op : Bool → Bool → Bool) (s t : Segment) (acc selection : List Bool)
      (es : FilterExprs) (f : ℕ → Bool)
      → Filled s
      → Describes s.row_count acc f
      → evaluate_rest fl op s acc es ≡ ok (t, selection)
      → Answers s t selection (λ i. fold_children op (row_satisfies fl s i) (f i) es)
  evaluate_rest-Answers fl op s t acc selection end f full d h =
      subst (λ (p : Segment × List Bool). Answers s p.0 p.1 f) (ok-injective h)
        ((refl, refl, λ n. refl), full, d)
  evaluate_rest-Answers fl op s t acc selection (child e es) f full d h =
      let ((s', next), first, h₁) = >>=-eq-ok (evaluate fl s e) _ h in
      let (acc', both, h₂) = >>=-eq-ok (combine op acc next) _ h₁ in
      let (same, full', d') = evaluate-Answers fl s s' e next full first in
      let d'' = combine-Describes op s.row_count acc next acc' f _ d d' both in
      Answers-after s s' t selection _ _ same
        (λ i.
          ap (λ sat. fold_children op sat (op (f i) (holds (row_satisfies fl s i) e)) es)
            (row_satisfies-SameTable fl s s' i same))
        (evaluate_rest-Answers fl op s' t acc' selection es _ full'
          (Describes-rows s s' acc' _ same d'') h₂)

-- Where `evaluate` gives a selection, it has an entry for each row of the segment, and the entry of
-- row `i` is the value that the tree has when each comparison is made with the cell of that row.
-- Reading columns leaves the same table behind. The columns that the segment keeps decoded have a
-- value for each row; a segment that was just parsed keeps none.
pub evaluate_lem :
    (fl : FloatOps) (s t : Segment) (e : FilterExpr) (selection : List Bool) (i : ℕ)
    → Filled s
    → i < s.row_count
    → evaluate fl s e ≡ ok (t, selection)
    → (length selection ≡ s.row_count)
      × (get_elem? selection i ≡ some (holds (row_satisfies fl s i) e))
      × SameTable s t
evaluate_lem fl s t e selection i full h done =
    let (same, _, (size, at)) = evaluate-Answers fl s t e selection full done in
    (size, at i h, same)

-- ===== src/Storage/Buffer/Append.antt =====
-- `Append` against the list of rows: it adds the row, or refuses it and changes nothing.
use uniqcol.Common.{
  ==_refl, ==_sound, Bool-cases, Bytes, List, Option-cases, [], ap, arith, get_elem?, inl, inr,
  length, length-append, map-append, none, refl, some, subst, sym, ℕ, ◌++◌, ◌+◌, ◌==◌, ◌↔◌, ◌∙◌,
  ◌∷◌, ◌≡◌,
}
use uniqcol.Storage.Types.{ColumnType, Column, Value, Row, Schema}
use uniqcol.Storage.Buffer.Cells.{
  column_values, Represents, store_row-schema, check_row_cons, cell, store_row-cell,
}
use uniqcol.Storage.Buffer.{WriteBuffer, check_value, check_row, store_row, append}
use native.Mathlib.Nat.{zero-add}

abbrev pub ValueFits : ColumnType → Value → Type 0
ValueFits ColumnType.int64 (Value.int64 x) = Unit
ValueFits ColumnType.float64 (Value.float64 x) = Unit
ValueFits ColumnType.string (Value.string s) = Unit
ValueFits _ _ = ⊥

-- A row has one value of the right type for each column.
abbrev pub RowFits : List Column → Row → Type 0
RowFits [] [] = Unit
RowFits (c ∷ cs) (v ∷ vs) = ValueFits c.type v × RowFits cs vs
RowFits _ _ = ⊥

check_value_iff :
    (name : Bytes) (t : ColumnType) (v : Value) → (check_value name t v ≡ none) ↔ ValueFits t v
unfolding check_value
check_value_iff name ColumnType.int64 (Value.int64 x) = (λ h. tt, λ h. refl)
check_value_iff name ColumnType.float64 (Value.float64 x) = (λ h. tt, λ h. refl)
check_value_iff name ColumnType.string (Value.string x) = (λ h. tt, λ h. refl)
check_value_iff name (ColumnType.unknown u) Value.nil = (λ h. cc, λ h. absurd h)
check_value_iff name _ _ = (λ h. cc, λ h. absurd h)

check_row_iff :
    (cs : List Column) (row : Row)
    → ((length row ≡ length cs) × (check_row cs row ≡ none)) ↔ RowFits cs row
unfolding check_row
check_row_iff [] [] = (λ h. tt, λ h. (refl, refl))
check_row_iff [] (v ∷ vs) = (λ h. absurd (omega arith), λ h. absurd h)
check_row_iff (c ∷ cs) [] = (λ h. absurd (omega arith), λ h. absurd h)
check_row_iff (c ∷ cs) (v ∷ vs) = (
  λ (same, h).
      let (passed, others) = check_row_cons c cs v vs h in
      ((check_value_iff c.name c.type v).0 passed, (check_row_iff cs vs).0 (omega arith, others)),
  λ (fit, fits).
      let (same, others) = (check_row_iff cs vs).1 fits in
      (omega arith, rw ((check_value_iff c.name c.type v).1 fit, check_row) others),
)

-- The buffer with the row in it.
abbrev pub appended : WriteBuffer → Row → WriteBuffer
appended b row =
    let stored = store_row 0 b.schema.columns row b in record stored { rows = stored.rows + 1 }

-- `Append` succeeds exactly on the rows that fit the schema.
pub append_fits :
    (b : WriteBuffer) (row : Row)
    → RowFits b.schema.columns row
    → append b row ≡ inr (appended b row)
unfolding append
append_fits b row h =
    let (same, passed) = (check_row_iff b.schema.columns row).1 h in
    rw (same, ==_refl (length b.schema.columns), passed)

pub append-eq-inr :
    (b b' : WriteBuffer) (row : Row)
    → append b row ≡ inr b'
    → RowFits b.schema.columns row × (b' ≡ appended b row)
unfolding append
append-eq-inr b b' row e = elim (Bool-cases (length row == length b.schema.columns)) [
  | inr other ↦ cc (rw other at e)
  | inl same ↦ elim (Option-cases (check_row b.schema.columns row)) [
    | inr (x, refused) ↦ cc (rw (same, refused) at e)
    | inl passed ↦ (
      (check_row_iff b.schema.columns row).0 (==_sound _ _ same, passed),
      cc (rw (same, passed) at e),
    )
  ]
]

column_values-rows :
    (b : WriteBuffer) (n i : ℕ) (t : ColumnType)
    → column_values (record b { rows = n }) i t ≡ column_values b i t
unfolding column_values
column_values-rows b n i ColumnType.int64 = refl
column_values-rows b n i ColumnType.float64 = refl
column_values-rows b n i ColumnType.string = refl
column_values-rows b n i (ColumnType.unknown u) = refl

-- After `Append` the buffer holds the old rows and the new one behind them.
pub appended-Represents :
    (b : WriteBuffer) (rows : List Row) (row : Row)
    → Represents b rows
    → RowFits b.schema.columns row
    → Represents (appended b row) (rows ++ row ∷ [])
appended-Represents b rows row h fits = record {
  count = omega (
    arith,
    (store_row-schema 0 b.schema.columns row b).1,
    h.count,
    length-append rows (row ∷ []),
  );
  cells = λ i c found.
      column_values-rows (store_row 0 b.schema.columns row b) _ i c.type
      ∙ (rw (zero-add i) at (
          store_row-cell 0 i c b.schema.columns row b
            ((check_row_iff b.schema.columns row).1 fits).1 (in_schema i c found)))
      ∙ ap (λ (l : List Value). l ++ cell i row ∷ []) (h.cells i c (in_schema i c found))
      ∙ sym (map-append (cell i) rows (row ∷ []));
}
  where
    in_schema :
        (i : ℕ) (c : Column)
        → get_elem? (appended b row).schema.columns i ≡ some c
        → get_elem? b.schema.columns i ≡ some c
    in_schema i c found =
        subst (λ (s : Schema). get_elem? s.columns i ≡ some c)
          (store_row-schema 0 b.schema.columns row b).0 found

-- When `Append` returns no error, the row fitted the schema, the schema is kept, and the buffer, if
-- it held `rows`, holds `rows` and the new one behind them.
pub append-Represents :
    (b b' : WriteBuffer) (rows : List Row) (row : Row)
    → Represents b rows
    → append b row ≡ inr b'
    → RowFits b.schema.columns row × (b'.schema ≡ b.schema) × Represents b' (rows ++ row ∷ [])
append-Represents b b' rows row h e =
    let (fits, built) = append-eq-inr b b' row e in
    (
      fits,
      ap (λ (d : WriteBuffer). d.schema) built ∙ (store_row-schema 0 b.schema.columns row b).0,
      subst (λ (d : WriteBuffer). Represents d (rows ++ row ∷ [])) (sym built)
          (appended-Represents b rows row h fits),
    )

-- ===== src/Storage/Buffer/Cells.antt =====
-- The buffer against its specification: the list of the rows that were appended.
use uniqcol.Common.{
  ==_of_ne, ==_refl, Bytes, List, Option-cases, [], ap, arith, get_elem?, get_or, inl, inr, length,
  map, map-append, none, refl, some, subst, suc, zero, ℕ, ◌++◌, ◌+◌, ◌<◌, ◌∙◌, ◌∷◌, ◌≡◌, ◌≢◌,
}
use uniqcol.Storage.Types.{ColumnType, Column, Value, Row, Schema}
use uniqcol.Storage.Buffer.{
  WriteBuffer, check_value, store_value, check_row, update, store_row, new_write_buffer, reset,
}
use native.Mathlib.Nat.{add-zero}

-- The cells of column `i`, by its type.
unfoldable pub column_values : WriteBuffer → ℕ → ColumnType → List Value
column_values b i ColumnType.int64 = map Value.int64 (b.int64_cols i)
column_values b i ColumnType.float64 = map Value.float64 (b.float64_cols i)
column_values b i ColumnType.string = map Value.string (b.string_cols i)
column_values b i (ColumnType.unknown u) = []

-- The `i`-th cell of each row.
abbrev pub cell : ℕ → Row → Value
cell i row = get_or row i Value.nil

-- The buffer holds exactly these rows, column by column.
pub record Represents (b : WriteBuffer) (rows : List Row) : Type 0 where
  pub count : b.rows ≡ length rows
  pub cells :
      (i : ℕ) (c : Column)
      → get_elem? b.schema.columns i ≡ some c
      → column_values b i c.type ≡ map (cell i) rows

-- The map of a column's slice after `append`, at the column and at another one.
push_self {ℓ} :
    {A : Type ℓ} (wrap : A → Value) (f : ℕ → List A) (i : ℕ) (x : A)
    → map wrap (update f i (f i ++ x ∷ []) i) ≡ map wrap (f i) ++ wrap x ∷ []
push_self wrap f i x = rw (==_refl i) (map-append wrap (f i) (x ∷ []))

push_other {ℓ} :
    {A : Type ℓ} (wrap : A → Value) (f : ℕ → List A) (i j : ℕ) (xs : List A)
    → j ≢ i
    → map wrap (update f i xs j) ≡ map wrap (f j)
push_other wrap f i j xs h = rw (==_of_ne j i h)

store_value_self :
    (i : ℕ) (name : Bytes) (t : ColumnType) (v : Value) (b : WriteBuffer)
    → check_value name t v ≡ none
    → column_values (store_value i t v b) i t ≡ column_values b i t ++ v ∷ []
unfolding check_value store_value column_values
store_value_self i name ColumnType.int64 (Value.int64 x) b h =
    push_self Value.int64 b.int64_cols i x
store_value_self i name ColumnType.float64 (Value.float64 x) b h =
    push_self Value.float64 b.float64_cols i x
store_value_self i name ColumnType.string (Value.string x) b h =
    push_self Value.string b.string_cols i x
store_value_self i name (ColumnType.unknown u) Value.nil b h = cc
store_value_self i name _ _ b h = cc

-- The slices of one type change, at the column `i` only.
int64_other :
    (i j : ℕ) (u : ColumnType) (xs : List ℕ) (b : WriteBuffer)
    → j ≢ i
    → column_values (record b { int64_cols = update b.int64_cols i xs }) j u ≡ column_values b j u
unfolding column_values
int64_other i j ColumnType.int64 xs b h = push_other Value.int64 b.int64_cols i j xs h
int64_other i j _ xs b h = refl

float64_other :
    (i j : ℕ) (u : ColumnType) (xs : List ℕ) (b : WriteBuffer)
    → j ≢ i
    → column_values (record b { float64_cols = update b.float64_cols i xs }) j u
      ≡ column_values b j u
unfolding column_values
float64_other i j ColumnType.float64 xs b h = push_other Value.float64 b.float64_cols i j xs h
float64_other i j _ xs b h = refl

string_other :
    (i j : ℕ) (u : ColumnType) (xs : List Bytes) (b : WriteBuffer)
    → j ≢ i
    → column_values (record b { string_cols = update b.string_cols i xs }) j u ≡ column_values b j u
unfolding column_values
string_other i j ColumnType.string xs b h = push_other Value.string b.string_cols i j xs h
string_other i j _ xs b h = refl

store_value_other :
    (i j : ℕ) (t u : ColumnType) (v : Value) (b : WriteBuffer)
    → j ≢ i
    → column_values (store_value i t v b) j u ≡ column_values b j u
unfolding store_value
store_value_other i j ColumnType.int64 u (Value.int64 x) b h = int64_other i j u _ b h
store_value_other i j ColumnType.float64 u (Value.float64 x) b h = float64_other i j u _ b h
store_value_other i j ColumnType.string u (Value.string x) b h = string_other i j u _ b h
store_value_other i j _ u _ b h = refl

store_value-schema :
    (i : ℕ) (t : ColumnType) (v : Value) (b : WriteBuffer)
    → ((store_value i t v b).schema ≡ b.schema) × ((store_value i t v b).rows ≡ b.rows)
unfolding store_value
store_value-schema i ColumnType.int64 (Value.int64 x) b = (refl, refl)
store_value-schema i ColumnType.float64 (Value.float64 x) b = (refl, refl)
store_value-schema i ColumnType.string (Value.string x) b = (refl, refl)
store_value-schema i _ _ b = (refl, refl)

pub store_row-schema :
    (i : ℕ) (cs : List Column) (row : Row) (b : WriteBuffer)
    → ((store_row i cs row b).schema ≡ b.schema) × ((store_row i cs row b).rows ≡ b.rows)
unfolding store_row
store_row-schema i [] row b = (refl, refl)
store_row-schema i (c ∷ cs) [] b = (refl, refl)
store_row-schema i (c ∷ cs) (v ∷ vs) b =
    let (s, r) = store_row-schema (i + 1) cs vs (store_value i c.type v b) in
    let (s', r') = store_value-schema i c.type v b in (s ∙ s', r ∙ r')

store_row_below :
    (i j : ℕ) (u : ColumnType) (cs : List Column) (row : Row) (b : WriteBuffer)
    → j < i
    → column_values (store_row i cs row b) j u ≡ column_values b j u
unfolding store_row
store_row_below i j u [] row b h = refl
store_row_below i j u (c ∷ cs) [] b h = refl
store_row_below i j u (c ∷ cs) (v ∷ vs) b h =
    store_row_below (i + 1) j u cs vs (store_value i c.type v b) (omega arith)
    ∙ store_value_other i j c.type u v b (omega arith)

-- A row passes if its first value does and the others do.
pub check_row_cons :
    (c : Column) (cs : List Column) (v : Value) (vs : Row)
    → check_row (c ∷ cs) (v ∷ vs) ≡ none
    → (check_value c.name c.type v ≡ none) × (check_row cs vs ≡ none)
unfolding check_row
check_row_cons c cs v vs h = elim (Option-cases (check_value c.name c.type v)) [
  | inl passed ↦ (passed, rw (passed, check_row) at h)
  | inr (e, refused) ↦ cc (rw (refused, check_row) at h)
]

-- A row whose values all passed adds its `k`-th cell to the column `i + k`, behind what is there.
pub store_row-cell :
    (i k : ℕ) (c : Column) (cs : List Column) (row : Row) (b : WriteBuffer)
    → check_row cs row ≡ none
    → get_elem? cs k ≡ some c
    → column_values (store_row i cs row b) (i + k) c.type
      ≡ column_values b (i + k) c.type ++ cell k row ∷ []
unfolding store_row
store_row-cell i k c [] row b ok_row at = cc
store_row-cell i k c (d ∷ ds) [] b ok_row at = unfold check_row in cc
store_row-cell i zero c (d ∷ ds) (v ∷ vs) b ok_row at =
    let (passed, _) = check_row_cons d ds v vs ok_row in
    let same : d ≡ c = cc in
    rw (add-zero i) (
      store_row_below (i + 1) i c.type ds vs (store_value i d.type v b) (omega arith)
      ∙ subst
          (λ (e : Column).
            column_values (store_value i d.type v b) i e.type ≡ column_values b i e.type ++ v ∷ [])
          same (store_value_self i d.name d.type v b passed))
store_row-cell i (suc k) c (d ∷ ds) (v ∷ vs) b ok_row at =
    let (_, others) = check_row_cons d ds v vs ok_row in
    let shift : i + suc k ≡ i + 1 + k = omega arith in
    rw shift (
      store_row-cell (i + 1) k c ds vs (store_value i d.type v b) others at
      ∙ ap (λ (l : List Value). l ++ cell k vs ∷ [])
          (store_value_other i (i + 1 + k) d.type c.type v b (omega arith)))

none_held : (s : Schema) (i : ℕ) (t : ColumnType) → column_values (new_write_buffer s) i t ≡ []
unfolding new_write_buffer column_values
none_held s i ColumnType.int64 = refl
none_held s i ColumnType.float64 = refl
none_held s i ColumnType.string = refl
none_held s i (ColumnType.unknown u) = refl

-- A new buffer holds no rows, and `Reset` makes any buffer a new one.
pub new_write_buffer-Represents : (s : Schema) → Represents (new_write_buffer s) []
unfolding new_write_buffer
new_write_buffer-Represents s = record { count = refl; cells = λ i c at. none_held s i c.type }

pub reset-new_write_buffer : (b : WriteBuffer) → reset b ≡ new_write_buffer b.schema
unfolding reset new_write_buffer
reset-new_write_buffer b = refl

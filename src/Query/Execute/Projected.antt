-- ===== src/Query/Execute/Projected.antt =====
-- A projection of a segment against the list of the rows that it stores.
use uniqcol.Common.{
  >>=-eq-ok, Bool, Bool-cases, Bytes, List, Option, Option-cases, Result, [], ap, arith, drop,
  false, get_elem?, if◌then◌else◌, inl, inr, length, length-map, map, none, not, ok, ok-injective,
  panic, refl, some, some-injective, subst, suc, sym, true, zero, ℕ, ◌*◌, ◌+◌, ◌>>=◌, ◌∙◌, ◌∷◌, ◌≡◌,
  ◌≤◌,
}
use uniqcol.Storage.Codec.{max_alloc}
use uniqcol.Query.Group.Rounds.{get_elem?_beyond}
use uniqcol.Query.{Query}
use uniqcol.Query.Aggregate.{
  make_rows, row_at, row_value_at, project_rows, read_columns, skipped, exec_project,
}
use uniqcol.Query.Aggregate.Rows.{drop_cons, drop-length, Selects, length-rows}
use uniqcol.Storage.Buffer.Cells.{cell}
use uniqcol.Storage.Segment.{Segment, Decoded, int64s, float64s, strings}
use uniqcol.Storage.Segment.Caching.{Filled, values_at, read_column-SameTable}
use uniqcol.Storage.Segment.Columns.{values_of}
use uniqcol.Storage.Segment.Read.{read_column}
use uniqcol.Storage.Segment.Stored.{Stores, Stores-SameTable}
use uniqcol.Storage.Types.{Column, Row, Schema, Value}

-- The rows that a test is true of, in their order.
unfoldable pub matching : (Row → Bool) → List Row → List Row
matching test [] = []
matching test (row ∷ rows) = if test row then row ∷ matching test rows else matching test rows

pub get_elem?-map {ℓ κ} :
    {A : Type ℓ} {B : Type κ} (f : A → B) (xs : List A) (i : ℕ) (x : A)
    → get_elem? xs i ≡ some x
    → get_elem? (map f xs) i ≡ some (f x)
get_elem?-map f [] i x h = cc
get_elem?-map f (y ∷ xs) zero x h = ap (λ z. some (f z)) (some-injective _ _ h)
get_elem?-map f (y ∷ xs) (suc i) x h = get_elem?-map f xs i x h

row_value_at-wrap {ℓ} :
    {A : Type ℓ} (wrap : A → Value) (xs : List A) (i : ℕ) (v : Value)
    → get_elem? (map wrap xs) i ≡ some v
    → ◌≡◌ {A = Result uniqcol.Query.Error Value}
        (elim (get_elem? xs i) [ none ↦ uniqcol.Common.panic | some x ↦ ok (wrap x) ])
        (ok v)
row_value_at-wrap wrap [] i v h = cc
row_value_at-wrap wrap (x ∷ xs) zero v h = ap ok (some-injective _ _ h)
row_value_at-wrap wrap (x ∷ xs) (suc i) v h = row_value_at-wrap wrap xs i v h

row_value_at-values_of :
    (d : Decoded) (i : ℕ) (v : Value) → get_elem? (values_of d) i ≡ some v → row_value_at d i ≡ ok v
unfolding row_value_at values_of
row_value_at-values_of (int64s xs) i v h = row_value_at-wrap Value.int64 xs i v h
row_value_at-values_of (float64s xs) i v h = row_value_at-wrap Value.float64 xs i v h
row_value_at-values_of (strings xs) i v h = row_value_at-wrap Value.string xs i v h

-- The decoded columns at these positions.
abbrev AreColumns : List Row → List ℕ → List Decoded → Type 0
AreColumns rows [] [] = Unit {0}
AreColumns rows [] (d ∷ ds) = ⊥
AreColumns rows (k ∷ ks) [] = ⊥
AreColumns rows (k ∷ ks) (d ∷ ds) = (values_of d ≡ map (cell k) rows) × AreColumns rows ks ds

-- The cells of a row at these positions.
abbrev pub cells_at : List ℕ → Row → List Value
cells_at ks row = map (λ k. cell k row) ks

row_at-AreColumns :
    (rows : List Row) (ks : List ℕ) (ds : List Decoded) (i : ℕ) (row : Row)
    → AreColumns rows ks ds
    → get_elem? rows i ≡ some row
    → row_at ds i ≡ ok (cells_at ks row)
unfolding row_at
row_at-AreColumns rows [] [] i row h at = refl
row_at-AreColumns rows [] (d ∷ ds) i row h at = elim h [ ]
row_at-AreColumns rows (k ∷ ks) [] i row h at = elim h [ ]
row_at-AreColumns rows (k ∷ ks) (d ∷ ds) i row (cells, h) at =
    rw
      (
        row_value_at-values_of d i (cell k row)
            (ap (λ vs. get_elem? vs i) cells ∙ get_elem?-map (cell k) rows i row at),
        row_at-AreColumns rows ks ds i row h at,
      )
      refl

-- A selection that says of each row whether the test is true of it.
abbrev pub Picks : Option (List Bool) → (Row → Bool) → List Row → Type 0
Picks selection test rows =
    (i : ℕ) (row : Row) → get_elem? rows i ≡ some row → skipped selection i ≡ ok (not (test row))

project_rows-skip :
    (ds : List Decoded) (selection : Option (List Bool)) (n i : ℕ)
    → skipped selection i ≡ ok true
    → project_rows ds selection (suc n) i ≡ project_rows ds selection n (i + 1)
unfolding project_rows
project_rows-skip ds selection n i h = rw (project_rows, h) refl

project_rows-take :
    (ds : List Decoded) (selection : Option (List Bool)) (n i : ℕ) (row : List Value)
    → skipped selection i ≡ ok false
    → row_at ds i ≡ ok row
    → project_rows ds selection (suc n) i
      ≡ (project_rows ds selection n (i + 1) >>= λ rows. ok (row ∷ rows))
unfolding project_rows
project_rows-take ds selection n i row h k = rw (project_rows, h, k) refl

-- No more rows than there are.
pub length-matching :
    (test : Row → Bool) (rows : List Row) → length (matching test rows) ≤ length rows
unfolding matching
length-matching test [] = omega arith
length-matching test (row ∷ rows) = ground (arith, length-matching test rows)

pub project_rows-matching :
    (rows : List Row) (ks : List ℕ) (ds : List Decoded) (selection : Option (List Bool))
    (test : Row → Bool) (n i : ℕ)
    → AreColumns rows ks ds
    → Picks selection test rows
    → i + n ≡ length rows
    → project_rows ds selection n i ≡ ok (map (cells_at ks) (matching test (drop i rows)))
unfolding matching project_rows
project_rows-matching rows ks ds selection test zero i h picks size =
    ap (λ rest. ok (map (cells_at ks) (matching test rest)))
      (sym (drop-length rows i (omega (arith, size))))
project_rows-matching rows ks ds selection test (suc n) i h picks size =
    elim (Option-cases (get_elem? rows i)) [
      | inl beyond ↦ absurd (omega (arith, get_elem?_beyond rows i beyond, size))
      | inr (row, at) ↦
          let later =
            project_rows-matching rows ks ds selection test n (i + 1) h picks (omega arith) in
          let next : i + 1 ≡ suc i = omega arith in
          let rest = drop_cons rows i row at ∙ ap (λ j. row ∷ drop j rows) (sym next) in
          elim (Bool-cases (test row)) [
            | inl yes_row ↦
                project_rows-take ds selection n i (cells_at ks row)
                  (picks i row at ∙ ap (λ b. ok (not b)) yes_row)
                  (row_at-AreColumns rows ks ds i row h at)
                ∙ rw (later, rest, yes_row) refl
            | inr no_row ↦
                project_rows-skip ds selection n i (picks i row at ∙ ap (λ b. ok (not b)) no_row)
                ∙ rw (later, rest, no_row) refl
          ]
    ]

-- The positions of the columns that are named.
abbrev pub Located : List Column → List Bytes → List ℕ → Type 0
Located cs [] [] = Unit {0}
Located cs [] (k ∷ ks) = ⊥
Located cs (n ∷ ns) [] = ⊥
Located cs (n ∷ ns) (k ∷ ks) =
    ((c : Column) × (get_elem? cs k ≡ some c) × (c.name ≡ n)) × Located cs ns ks

values_at-read_column :
    (s : Segment) (name : Bytes) (vals : Decoded)
    → values_at s name ≡ ok vals
    → (t : Segment) × (read_column s name ≡ ok (t, vals))
values_at-read_column s name vals e =
    let ((t, d), found, same) = >>=-eq-ok (read_column s name) _ e in
    (t, found ∙ ap (λ v. ok (t, v)) (ok-injective same))

read_columns-Stores :
    (s : Segment) (rows : List Row) (ns : List Bytes) (ks : List ℕ)
    → Filled s
    → Stores s rows
    → Located s.schema.columns ns ks
    → (t : Segment) × (ds : List Decoded) × (read_columns s ns ≡ ok (t, ds)) × AreColumns rows ks ds
unfolding read_columns
read_columns-Stores s rows [] [] full h at = (s, [], refl, tt)
read_columns-Stores s rows [] (k ∷ ks) full h at = elim at [ ]
read_columns-Stores s rows (n ∷ ns) [] full h at = elim at [ ]
read_columns-Stores s rows (n ∷ ns) (k ∷ ks) full h ((c, at, name), later) =
    let (vals, found, cells) = h.columns k c at in
    let (s', got) = values_at-read_column s n vals (ap (values_at s) (sym name) ∙ found) in
    let (same, full', _) = read_column-SameTable s s' n vals full got in
    let (t, ds, rest, columns) =
      read_columns-Stores s' rows ns ks full' (Stores-SameTable s s' rows same h)
        (subst (λ (v : Schema). Located v.columns ns ks) (sym same.1) later) in
    (t, vals ∷ ds, rw (got, rest) refl, (cells, columns))

make_rows_fits : (n : ℕ) → 24 * n ≤ max_alloc → make_rows n ≡ ok tt
unfolding make_rows
make_rows_fits n h = ground arith

-- A projection of a segment that stores rows: the cells of those that the selection picks.
pub exec_project-Stores :
    (s : Segment) (rows : List Row) (ns : List Bytes) (ks : List ℕ) (selection : Option (List Bool))
    (test : Row → Bool)
    → Filled s
    → Stores s rows
    → Located s.schema.columns ns ks
    → Picks selection test rows
    → Selects selection s.row_count
    → 24 * length (matching test rows) ≤ max_alloc
    → (t : Segment) × (exec_project s ns selection
        ≡ ok (
          t,
          record {
            columns = ns;
            rows = map (cells_at ks) (matching test rows);
            is_aggregate = false;
          },
        ))
unfolding exec_project
exec_project-Stores s rows ns ks selection test full h at picks one_each room =
    let (t, ds, got, columns) = read_columns-Stores s rows ns ks full h at in
    let made =
      project_rows-matching rows ks ds selection test s.row_count 0 columns picks
        (omega (arith, h.count)) in
    let size =
      sym (length-rows ds selection s.row_count _ one_each made)
      ∙ length-map (cells_at ks) (matching test rows) in
    let fits =
      subst (λ n. make_rows n ≡ ok tt) (sym size)
        (make_rows_fits (length (matching test rows)) room) in
    (t, rw (got, fits, made) refl)

-- ===== src/Query/Group/Nan.antt =====
-- A NaN among the group keys: the map does not give its accumulator back.
use uniqcol.Common.{
  Bool-cases, Bytes, List, Option, Option-cases, [], ap, arith, dec_lt, false, get_elem?, inl, inr,
  length, ltb, none, ok, panic, refl, some, subst, suc, zero, ℕ, ◌*◌, ◌++◌, ◌+◌, ◌<◌, ◌>>=◌, ◌∙◌,
  ◌∷◌, ◌≡◌, ◌≤◌, ◌⊎◌,
}
use uniqcol.Storage.Codec.{max_alloc}
use uniqcol.Query.Group.{GroupTable}
use uniqcol.Storage.Segment.Read.{read_column}
use uniqcol.Storage.Segment.Caching.{decoded_rows, Filled, read_column-SameTable}
use uniqcol.Query.Group.Counts.{NanDiffers, find_group_differs, emit_groups-none, emit_groups-some}
use uniqcol.Query.Group.Rounds.{group_rows_take, read_summed_count}
use uniqcol.Query.{Query, AggregateKind, FloatOps}
use uniqcol.Query.Group.{
  Accumulator, counted, Groups, find_group, group_row, group_rows, emit_groups, group_answer,
  exec_grouped, accumulate, value_eq,
}
use uniqcol.Query.Aggregate.{make_rows, skipped, row_value_at, make_rows}
use uniqcol.Storage.Segment.{Segment, float64s}
use uniqcol.Storage.Types.{Value, column_index}

abbrev Has : Value → List Value → Type 0
Has k [] = ⊥
Has k (x ∷ xs) = (x ≡ k) ⊎ Has k xs

Has-append : (k : Value) (xs ys : List Value) → Has k xs ⊎ Has k ys → Has k (xs ++ ys)
Has-append k [] ys (inl h) = absurd h
Has-append k [] ys (inr h) = h
Has-append k (x ∷ xs) ys (inl (inl h)) = inl h
Has-append k (x ∷ xs) ys (inl (inr h)) = inr (Has-append k xs ys (inl h))
Has-append k (x ∷ xs) ys (inr h) = inr (Has-append k xs ys (inr h))

-- Counting a row does not fail, and its key is among the keys if it was there or is not found.
group_row_keeps :
    (fl : FloatOps) (col : Bytes) (i : ℕ) (k key : Value) (g : Groups) (found : Option Accumulator)
    → Has k g.keys ⊎ ((key ≡ k) × (found ≡ none))
    → (g' : Groups) × (group_row fl col counted i key g found ≡ ok g') × Has k g'.keys
unfolding group_row accumulate
group_row_keeps fl col i k key g (some acc) (inl has) = (_, refl, has)
group_row_keeps fl col i k key g (some acc) (inr (same, absent)) = cc
group_row_keeps fl col i k key g none (inl has) =
    (_, refl, Has-append k g.keys (key ∷ []) (inl has))
group_row_keeps fl col i k key g none (inr (same, absent)) =
    (_, refl, Has-append k g.keys (key ∷ []) (inr (inl same)))

row_value_at_float :
    (xs : List ℕ) (i x : ℕ)
    → get_elem? xs i ≡ some x
    → row_value_at (float64s xs) i ≡ ok (Value.float64 x)
unfolding row_value_at
row_value_at_float xs i x h = rw (row_value_at, h) refl

get_elem?_within {ℓ} :
    {A : Type ℓ} (xs : List A) (i : ℕ) → i < length xs → (a : A) × (get_elem? xs i ≡ some a)
get_elem?_within [] i h = absurd (omega arith)
get_elem?_within (x ∷ xs) zero h = (x, refl)
get_elem?_within (x ∷ xs) (suc i) h = get_elem?_within xs i (omega arith)

get_elem?_lt {ℓ} :
    {A : Type ℓ} (xs : List A) (i : ℕ) (a : A) → get_elem? xs i ≡ some a → i < length xs
get_elem?_lt [] i a h = cc
get_elem?_lt (x ∷ xs) zero a h = omega arith
get_elem?_lt (x ∷ xs) (suc i) a h = omega (arith, get_elem?_lt xs i a h)

float_key :
    (fl : FloatOps) (x : ℕ)
    → fl.float_eq x x ≡ false
    → value_eq fl (Value.float64 x) (Value.float64 x) ≡ false
unfolding value_eq
float_key fl x h = h

-- Counting a row does not fail.
group_row_runs :
    (fl : FloatOps) (col : Bytes) (i : ℕ) (key : Value) (g : Groups) (found : Option Accumulator)
    → (g' : Groups) × (group_row fl col counted i key g found ≡ ok g')
unfolding group_row accumulate
group_row_runs fl col i key g (some acc) = (_, refl)
group_row_runs fl col i key g none = (_, refl)

-- A round, when the row is counted.
group_rows_step :
    (fl : FloatOps) (col : Bytes) (xs : List ℕ) (y n i : ℕ) (g h : Groups)
    → get_elem? xs i ≡ some y
    → group_row fl col counted i (Value.float64 y) g (find_group fl (Value.float64 y) g.table)
      ≡ ok h
    → group_rows fl col counted (float64s xs) none (suc n) i g
      ≡ group_rows fl col counted (float64s xs) none n (i + 1) h
unfolding skipped
group_rows_step fl col xs y n i g h at row =
    group_rows_take fl col counted (float64s xs) none n i g refl
    ∙ rw (row_value_at_float xs i y at, row) refl

abbrev Reaches : FloatOps → Bytes → List ℕ → ℕ → ℕ → ℕ → Groups → Type 0
Reaches fl col xs x n i g =
    (g' : Groups) × (group_rows fl col counted (float64s xs) none n i g ≡ ok g')
    × Has (Value.float64 x) g'.keys

Reaches-step :
    (fl : FloatOps) (col : Bytes) (xs : List ℕ) (x y n i : ℕ) (g h : Groups)
    → get_elem? xs i ≡ some y
    → group_row fl col counted i (Value.float64 y) g (find_group fl (Value.float64 y) g.table)
      ≡ ok h
    → Reaches fl col xs x n (i + 1) h
    → Reaches fl col xs x (suc n) i g
Reaches-step fl col xs x y n i g h at row (g', runs, has) =
    (g', group_rows_step fl col xs y n i g h at row ∙ runs, has)

-- The key of row `j` is among the keys at the end, when it is not found in any map.
group_rows-Reaches :
    (fl : FloatOps) (col : Bytes) (xs : List ℕ) (j x n i : ℕ) (g : Groups)
    → ((table : uniqcol.Query.Group.GroupTable) → find_group fl (Value.float64 x) table ≡ none)
    → get_elem? xs j ≡ some x
    → i + n ≤ length xs
    → Has (Value.float64 x) g.keys ⊎ ((i ≤ j) × (j < i + n))
    → Reaches fl col xs x n i g
unfolding group_rows
group_rows-Reaches fl col xs j x zero i g absent at size (inl has) = (g, refl, has)
group_rows-Reaches fl col xs j x zero i g absent at size (inr (h, k)) = absurd (omega arith)
group_rows-Reaches fl col xs j x (suc n) i g absent at size (inl has) =
    let (y, at_i) = get_elem?_within xs i (omega arith) in
    let (h, row, has') =
      group_row_keeps fl col i (Value.float64 x) (Value.float64 y) g _ (inl has) in
    Reaches-step fl col xs x y n i g h at_i row
      (group_rows-Reaches fl col xs j x n (i + 1) h absent at (omega arith) (inl has'))
group_rows-Reaches fl col xs j x (suc n) i g absent at size (inr (low, high)) = elim (dec_lt i j) [
  | yes before ↦
      let (y, at_i) = get_elem?_within xs i (omega arith) in
      let (h, row) = group_row_runs fl col i (Value.float64 y) g _ in
      Reaches-step fl col xs x y n i g h at_i row (
        group_rows-Reaches fl col xs j x n (i + 1) h absent at (omega arith)
          (inr (omega arith, omega arith)))
  | no not_before ↦
      let here : j ≡ i = omega arith in
      let at_i = subst (λ m. get_elem? xs m ≡ some x) here at in
      let (h, row, has') =
        group_row_keeps fl col i (Value.float64 x) (Value.float64 x) g _
          (inr (refl, absent g.table)) in
      Reaches-step fl col xs x x n i g h at_i row
        (group_rows-Reaches fl col xs j x n (i + 1) h absent at (omega arith) (inl has'))
]

-- A key that the map does not give ends in the nil pointer.
emit_groups_panics :
    (fl : FloatOps) (k : Value) (ks : List Value) (table : uniqcol.Query.Group.GroupTable)
    → find_group fl k table ≡ none
    → Has k ks
    → emit_groups fl counted ks table ≡ panic
emit_groups_panics fl k [] table absent has = absurd has
emit_groups_panics fl k (x ∷ ks) table absent (inl same) =
    emit_groups-none fl counted x ks table (ap (λ v. find_group fl v table) same ∙ absent)
emit_groups_panics fl k (x ∷ ks) table absent (inr has) =
    elim (Option-cases (find_group fl x table)) [
      | inl missing ↦ emit_groups-none fl counted x ks table missing
      | inr (acc, found) ↦
          emit_groups-some fl x ks table acc found
          ∙ rw (emit_groups_panics fl k ks table absent has) refl
    ]

-- What panics behind the making of the rows panics, whether they can be made or not.
make_rows_panics {ℓ} : {A : Type ℓ} (n : ℕ) → ◌>>=◌ {B = A} (make_rows n) (λ u. panic) ≡ panic
unfolding make_rows
make_rows_panics n = elim (Bool-cases (ltb max_alloc (24 * n))) [
  | inl large ↦ rw large refl
  | inr fits ↦ rw fits refl
]

-- A grouped `COUNT(*)` without a WHERE clause panics when the group column is a float64 column that
-- is read without an error and has a NaN in it. A NaN is assumed to equal no number, and the
-- columns that the segment keeps decoded have a value for each row.
pub exec_grouped_nan :
    (fl : FloatOps) (s t : Segment) (q : Query) (xs : List ℕ) (idx j x : ℕ)
    → NanDiffers fl
    → Filled s
    → q.group_agg ≡ AggregateKind.count_star
    → column_index s.schema q.group_by ≡ some idx
    → read_column s q.group_by ≡ ok (t, float64s xs)
    → get_elem? xs j ≡ some x
    → fl.float_eq x x ≡ false
    → exec_grouped fl s q none ≡ panic
unfolding exec_grouped group_answer decoded_rows
exec_grouped_nan fl s t q xs idx j x nan full count found read_it at differs =
    let absent = λ (table : uniqcol.Query.Group.GroupTable).
      find_group_differs fl (Value.float64 x) table nan (float_key fl x differs) in
    let ((rows, _, _), _, size) = read_column-SameTable s t q.group_by (float64s xs) full read_it in
    let (g, runs, has) =
      group_rows-Reaches fl q.sum_column xs j x t.row_count 0 (record { keys = []; table = [] })
        absent at (omega (arith, size, rows))
        (inr (omega arith, omega (arith, size, rows, get_elem?_lt xs j x at))) in
    rw
      (
        found,
        read_it,
        read_summed_count t q count,
        runs,
        emit_groups_panics fl (Value.float64 x) g.keys g.table (absent g.table) has,
      )
      (make_rows_panics (length g.keys))

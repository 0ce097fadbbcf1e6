-- ===== src/Query/Evaluate/Rows.antt =====
-- What a selection says of each row.
use uniqcol.Common.{
  >>=-eq-ok, Bool, Bytes, List, [], ap, arith, false, get_elem?, length, length-map, map, none, ok,
  ok-injective, refl, some, subst, suc, zero, ℕ, ◌<◌, ◌∷◌, ◌≡◌,
}
use uniqcol.Query.Evaluate.{
  as_int64s, as_float64s, as_strings, as_int64, as_float64, as_string, apply_comparison,
}
use uniqcol.Storage.Segment.Caching.{values_at, decoded_rows}
use uniqcol.Storage.Segment.Columns.{values_of}
use uniqcol.Storage.Segment.Stored.{cells_in}
use uniqcol.Query.Compare.{
  compare_int64, compare_float64, compare_string, scan_int64, scan_float64, scan_string,
}
use uniqcol.Query.{Comparison, FloatOps}
use uniqcol.Storage.Segment.{Segment, Decoded, int64s, float64s, strings}
use uniqcol.Storage.Types.{ColumnType, Value}

-- A cell against the literal of a comparison, of the same type.
unfoldable pub satisfies : FloatOps → Comparison → Value → Bool
satisfies fl c (Value.int64 x) = elim c.value [ Value.int64 w ↦ compare_int64 x c.op w | _ ↦ false ]
satisfies fl c (Value.float64 x) = elim c.value [
  | Value.float64 w ↦ compare_float64 fl x c.op w
  | _ ↦ false
]
satisfies fl c (Value.string x) = elim c.value [
  | Value.string w ↦ compare_string x c.op w
  | _ ↦ false
]
satisfies fl c _ = false

-- The cell of a row, tested.
abbrev pub tested : (Value → Bool) → List Value → ℕ → Bool
tested sat vs i = elim (get_elem? vs i) [ none ↦ false | some v ↦ sat v ]

-- Row `i` of a segment against a comparison.
unfoldable pub row_satisfies : FloatOps → Segment → ℕ → Comparison → Bool
unfolding satisfies
row_satisfies fl s i c = tested (satisfies fl c) (cells_in (values_at s c.column)) i

tested-map {ℓ} :
    {A : Type ℓ} (wrap : A → Value) (sat : Value → Bool) (f : A → Bool) (xs : List A)
    → ((x : A) → f x ≡ sat (wrap x))
    → (i : ℕ) → i < length xs
    → get_elem? (map f xs) i ≡ some (tested sat (map wrap xs) i)
tested-map wrap sat f [] same i h = absurd (omega arith)
tested-map wrap sat f (x ∷ xs) same zero h = ap some (same x)
tested-map wrap sat f (x ∷ xs) same (suc i) h = tested-map wrap sat f xs same i (omega arith)

-- A selection with the test of each cell of a column.
abbrev pub Tested : FloatOps → Comparison → Decoded → List Bool → Type 0
Tested fl c d selection =
    (length selection ≡ decoded_rows d)
    × ((i : ℕ)
        → i < decoded_rows d
        → get_elem? selection i ≡ some (tested (satisfies fl c) (values_of d) i))

as_int64-eq-ok : (v : Value) (x : ℕ) → as_int64 v ≡ ok x → v ≡ Value.int64 x
unfolding as_int64
as_int64-eq-ok (Value.int64 y) x h = ap Value.int64 (ok-injective h)
as_int64-eq-ok _ x h = cc

as_float64-eq-ok : (v : Value) (x : ℕ) → as_float64 v ≡ ok x → v ≡ Value.float64 x
unfolding as_float64
as_float64-eq-ok (Value.float64 y) x h = ap Value.float64 (ok-injective h)
as_float64-eq-ok _ x h = cc

as_string-eq-ok : (v : Value) (x : Bytes) → as_string v ≡ ok x → v ≡ Value.string x
unfolding as_string
as_string-eq-ok (Value.string y) x h = ap Value.string (ok-injective h)
as_string-eq-ok _ x h = cc

scan_int64-Tested :
    (fl : FloatOps) (c : Comparison) (vals : List ℕ) (want : ℕ)
    → c.value ≡ Value.int64 want
    → Tested fl c (int64s vals) (scan_int64 vals c.op want)
unfolding scan_int64 decoded_rows values_of satisfies
scan_int64-Tested fl c vals want h =
    (length-map _ vals, tested-map Value.int64 (satisfies fl c) _ vals (λ x. rw h refl))

scan_float64-Tested :
    (fl : FloatOps) (c : Comparison) (vals : List ℕ) (want : ℕ)
    → c.value ≡ Value.float64 want
    → Tested fl c (float64s vals) (scan_float64 fl vals c.op want)
unfolding scan_float64 decoded_rows values_of satisfies
scan_float64-Tested fl c vals want h =
    (length-map _ vals, tested-map Value.float64 (satisfies fl c) _ vals (λ x. rw h refl))

scan_string-Tested :
    (fl : FloatOps) (c : Comparison) (vals : List Bytes) (want : Bytes)
    → c.value ≡ Value.string want
    → Tested fl c (strings vals) (scan_string vals c.op want)
unfolding scan_string decoded_rows values_of satisfies
scan_string-Tested fl c vals want h =
    (length-map _ vals, tested-map Value.string (satisfies fl c) _ vals (λ x. rw h refl))

pub apply_comparison-Tested :
    (fl : FloatOps) (d : Decoded) (t : ColumnType) (c : Comparison) (selection : List Bool)
    → apply_comparison fl d t c ≡ ok selection
    → Tested fl c d selection
unfolding apply_comparison as_int64s as_float64s as_strings
apply_comparison-Tested fl (int64s vals) ColumnType.int64 c selection e =
    let (want, at, e₁) = >>=-eq-ok (as_int64 c.value) _ e in
    subst (Tested fl c (int64s vals)) (ok-injective e₁)
      (scan_int64-Tested fl c vals want (as_int64-eq-ok c.value want at))
apply_comparison-Tested fl (float64s vals) ColumnType.float64 c selection e =
    let (want, at, e₁) = >>=-eq-ok (as_float64 c.value) _ e in
    subst (Tested fl c (float64s vals)) (ok-injective e₁)
      (scan_float64-Tested fl c vals want (as_float64-eq-ok c.value want at))
apply_comparison-Tested fl (strings vals) ColumnType.string c selection e =
    let (want, at, e₁) = >>=-eq-ok (as_string c.value) _ e in
    subst (Tested fl c (strings vals)) (ok-injective e₁)
      (scan_string-Tested fl c vals want (as_string-eq-ok c.value want at))
apply_comparison-Tested fl d t c selection e = cc

-- ===== src/Storage/Segment/Caching.antt =====
-- The columns that a segment keeps decoded do not change what its columns are.
use uniqcol.Common.{
  >>=-eq-ok, All, Bool-cases, Bytes, List, Option-cases, Result, [], ap, bytes_eq, bytes_eq_iff,
  err, false, inl, inr, length, map_err, none, ok, ok-injective, or_fail, panic, refl, some,
  some-injective, stuck, subst, sym, ℕ, ◌>>=◌, ◌∙◌, ◌∷◌, ◌≡◌,
}
use uniqcol.Storage.Segment.ReadBack.{read_column_cached, read_column_absent}
use uniqcol.Storage.Segment.Columns.{lookup_self}
use uniqcol.Query.Aggregate.Sums.{kept}
use uniqcol.Storage.Codec.Raw.Sizes.{length-decode_raw_fixed, length-decode_raw_string}
use uniqcol.Storage.Segment.Read.{decode_column, read_column, type_at, read_fresh}
use uniqcol.Storage.Codec.Rle.Bounds.{
  decode_rle_int64_total, decode_rle_string_total, decode_rle_float64_total,
}
use uniqcol.Storage.Codec.Raw.{decode_raw_int64, decode_raw_float64}
use uniqcol.Storage.Segment.{
  Error, unknown_column, decode, Segment, Decoded, Encoding, int64s, float64s, strings, lookup,
}
use uniqcol.Storage.Types.{ColumnType, column_index}

unfoldable pub decoded_rows : Decoded → ℕ
decoded_rows (int64s xs) = length xs
decoded_rows (float64s xs) = length xs
decoded_rows (strings xs) = length xs

-- A decoder that gives as many values as rows, with its result wrapped.
wrapped_rows {ℓ κ} :
    {A : Type ℓ} {E : Type κ} (f : E → Error) (wrap : List A → Decoded) (m : Result E (List A))
    (rows : ℕ) (d : Decoded)
    → ((vs : List A) → decoded_rows (wrap vs) ≡ length vs)
    → ((vs : List A) → m ≡ ok vs → length vs ≡ rows)
    → (map_err f m >>= λ vals. ok (wrap vals)) ≡ ok d
    → decoded_rows d ≡ rows
wrapped_rows f wrap (ok vs) rows d same size e =
    ap decoded_rows (sym (ok-injective e)) ∙ same vs ∙ size vs refl
wrapped_rows f wrap (err x) rows d same size e = cc
wrapped_rows f wrap panic rows d same size e = cc
wrapped_rows f wrap stuck rows d same size e = cc

-- A decoded column has a value for each row.
decoded_rows-decode_column :
    (t : ColumnType) (encoding : Encoding) (payload : Bytes) (rows : ℕ) (name : Bytes) (d : Decoded)
    → decode_column t encoding payload rows name ≡ ok d
    → decoded_rows d ≡ rows
unfolding decode_column decoded_rows decode_raw_int64 decode_raw_float64
decoded_rows-decode_column ColumnType.int64 Encoding.rle payload rows name d e =
    wrapped_rows decode int64s _ rows d (λ vs. refl) (decode_rle_int64_total payload rows).1 e
decoded_rows-decode_column ColumnType.int64 Encoding.raw payload rows name d e =
    wrapped_rows decode int64s _ rows d (λ vs. refl) (length-decode_raw_fixed payload rows) e
decoded_rows-decode_column ColumnType.float64 Encoding.rle payload rows name d e =
    wrapped_rows decode float64s _ rows d (λ vs. refl) (decode_rle_float64_total payload rows).1 e
decoded_rows-decode_column ColumnType.float64 Encoding.raw payload rows name d e =
    wrapped_rows decode float64s _ rows d (λ vs. refl) (length-decode_raw_fixed payload rows) e
decoded_rows-decode_column ColumnType.string Encoding.rle payload rows name d e =
    wrapped_rows decode strings _ rows d (λ vs. refl) (decode_rle_string_total payload rows).1 e
decoded_rows-decode_column ColumnType.string Encoding.raw payload rows name d e =
    wrapped_rows decode strings _ rows d (λ vs. refl) (length-decode_raw_string payload rows) e
decoded_rows-decode_column (ColumnType.unknown u) encoding payload rows name d e = cc

-- What the segment answers for a column, whatever it keeps.
abbrev pub values_at : Segment → Bytes → Result Error Decoded
values_at s name = read_column s name >>= λ p. ok p.1

-- Every column that is kept has a value for each row. A segment that was just parsed keeps none.
abbrev pub Filled : Segment → Type 0
Filled s = All (λ (p : Bytes × Decoded). decoded_rows p.1 ≡ s.row_count) s.decoded

-- The same table, with other columns kept.
abbrev pub SameTable : Segment → Segment → Type 0
SameTable s t =
    (t.row_count ≡ s.row_count)
    × (t.schema ≡ s.schema)
    × ((name : Bytes) → values_at t name ≡ values_at s name)

values_of_bind {ℓ} :
    {A : Type ℓ} (m : Result Error A) (f g : A → Result Error (Segment × Decoded))
    → ((a : A) → (f a >>= λ p. ok p.1) ≡ (g a >>= λ p. ok p.1))
    → ((m >>= f) >>= λ p. ok p.1) ≡ ((m >>= g) >>= λ p. ok p.1)
values_of_bind (ok a) f g same = same a
values_of_bind (err x) f g same = refl
values_of_bind panic f g same = refl
values_of_bind stuck f g same = refl

-- Decoding a column does not look at what is kept.
values_of-read_fresh :
    (s : Segment) (kept : List (Bytes × Decoded)) (name : Bytes)
    → (read_fresh (record s { decoded = kept }) name >>= λ p. ok p.1)
      ≡ (read_fresh s name >>= λ p. ok p.1)
unfolding read_fresh
values_of-read_fresh s kept name =
    values_of_bind (or_fail (lookup name s.blocks) (unknown_column name)) _ _ (λ block.
      values_of_bind (type_at s.schema.columns (column_index s.schema name)) _ _ (λ t.
        values_of_bind (decode_column t block.encoding block.payload s.row_count name) _ _
          (λ vals. refl)))

abbrev keep : Segment → Bytes → Decoded → Segment
keep s name vals = record s { decoded = (name, vals) ∷ s.decoded }

read_fresh-keep :
    (s t : Segment) (name : Bytes) (vals : Decoded)
    → read_fresh s name ≡ ok (t, vals)
    → (keep s name vals ≡ t) × (decoded_rows vals ≡ s.row_count)
unfolding read_fresh
read_fresh-keep s t name vals e =
    let (block, _, e₁) = >>=-eq-ok (or_fail (lookup name s.blocks) _) _ e in
    let (u, _, e₂) = >>=-eq-ok (type_at s.schema.columns (column_index s.schema name)) _ e₁ in
    let (d, decoded, e₃) =
      >>=-eq-ok (decode_column u block.encoding block.payload s.row_count name) _ e₂ in
    subst (λ (p : Segment × Decoded). (keep s name p.1 ≡ p.0) × (decoded_rows p.1 ≡ s.row_count))
      (ok-injective e₃)
      (refl, decoded_rows-decode_column u block.encoding block.payload s.row_count name d decoded)

lookup_other :
    (s : Segment) (name other : Bytes) (vals : Decoded)
    → bytes_eq name other ≡ false
    → lookup other (keep s name vals).decoded ≡ lookup other s.decoded
unfolding lookup
lookup_other s name other vals h = rw h refl

values_at_cached :
    (s : Segment) (name : Bytes) (vals : Decoded)
    → lookup name s.decoded ≡ some vals
    → values_at s name ≡ ok vals
values_at_cached s name vals h =
    ap (λ (m : Result Error (Segment × Decoded)). m >>= λ p. ok p.1)
      (read_column_cached s name vals h)

values_at_absent :
    (s : Segment) (name : Bytes)
    → lookup name s.decoded ≡ none
    → values_at s name ≡ (read_fresh s name >>= λ p. ok p.1)
values_at_absent s name h =
    ap (λ (m : Result Error (Segment × Decoded)). m >>= λ p. ok p.1) (read_column_absent s name h)

values_at-keep :
    (s : Segment) (name : Bytes) (vals : Decoded)
    → values_at s name ≡ ok vals
    → (other : Bytes) → values_at (keep s name vals) other ≡ values_at s other
values_at-keep s name vals e other = elim (Bool-cases (bytes_eq name other)) [
  | inl same ↦
      subst (λ n. values_at (keep s name vals) n ≡ values_at s n) ((bytes_eq_iff name other).0 same)
        (values_at_cached (keep s name vals) name vals (lookup_self name vals s.decoded) ∙ sym e)
  | inr differ ↦ elim (Option-cases (lookup other s.decoded)) [
    | inr (found, at) ↦
        values_at_cached (keep s name vals) other found (lookup_other s name other vals differ ∙ at)
        ∙ sym (values_at_cached s other found at)
    | inl absent ↦
        values_at_absent (keep s name vals) other (lookup_other s name other vals differ ∙ absent)
        ∙ values_of-read_fresh s ((name, vals) ∷ s.decoded) other
        ∙ sym (values_at_absent s other absent)
  ]
]

pub values_at_read :
    (s t : Segment) (name : Bytes) (vals : Decoded)
    → read_column s name ≡ ok (t, vals)
    → values_at s name ≡ ok vals
values_at_read s t name vals e = ap (λ (m : Result Error (Segment × Decoded)). m >>= λ p. ok p.1) e

filled_rows :
    (rows : ℕ) (kept : List (Bytes × Decoded)) (name : Bytes) (vals : Decoded)
    → All (λ (p : Bytes × Decoded). decoded_rows p.1 ≡ rows) kept
    → lookup name kept ≡ some vals
    → decoded_rows vals ≡ rows
unfolding lookup
filled_rows rows [] name vals h e = cc
filled_rows rows ((n, d) ∷ kept) name vals (h, hs) e = elim (Bool-cases (bytes_eq n name)) [
  | inl same ↦
      let hit : lookup name ((n, d) ∷ kept) ≡ some d = rw same refl in
      sym (ap decoded_rows (some-injective d vals (sym hit ∙ e))) ∙ h
  | inr differ ↦
      let miss : lookup name ((n, d) ∷ kept) ≡ lookup name kept = rw differ refl in
      filled_rows rows kept name vals hs (sym miss ∙ e)
]

-- When `ReadColumn` gives the values of a column, there is one for each row, and the segment that
-- it leaves is the same table: every column has the values there that it had before, and what is
-- kept is complete again.
pub read_column-SameTable :
    (s t : Segment) (name : Bytes) (vals : Decoded)
    → Filled s
    → read_column s name ≡ ok (t, vals)
    → SameTable s t × Filled t × (decoded_rows vals ≡ s.row_count)
read_column-SameTable s t name vals full e = elim (Option-cases (lookup name s.decoded)) [
  | inr (cached, at) ↦
      let same = ok-injective (sym (read_column_cached s name cached at) ∙ e) in
      subst
        (λ (p : Segment × Decoded). SameTable s p.0 × Filled p.0 × (decoded_rows p.1 ≡ s.row_count))
        same ((refl, refl, λ n. refl), full, filled_rows s.row_count s.decoded name cached full at)
  | inl absent ↦
      let made = sym (read_column_absent s name absent) ∙ e in
      let (next, size) = read_fresh-keep s t name vals made in
      subst (λ (u : Segment). SameTable s u × Filled u × (decoded_rows vals ≡ s.row_count)) next
        (
          (refl, refl, values_at-keep s name vals (values_at_read s t name vals e)),
          (size, full),
          size,
        )
]

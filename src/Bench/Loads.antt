-- ===== src/Bench/Loads.antt =====
-- What a table accepts of the rows that `GenRows` makes.
use uniqcol.Common.{
  >>=-eq-ok, All, All-append, List, [], ap, arith, false, get_elem?, get_or, inr, length,
  length-append, map_err, ok, ok-injective, refl, some, subst, suc, sym, ℕ, ◌*◌, ◌++◌, ◌-◌, ◌∙◌,
  ◌∷◌, ◌≡◌, ◌≢◌, ◌≤◌,
}
use uniqcol.Storage.Buffer.{len}
use uniqcol.Storage.Table.Sessions.{create_table-insert_all}
use uniqcol.Storage.Table.Insert.{key_of}
use uniqcol.Storage.Table.History.{accepted_of, DistinctKeys, All-accepted_of}
use uniqcol.Storage.Table.{
  Table, TableOptions, CreateError, pk_bytes, table_at, create_bloom, create_table,
}
use uniqcol.Storage.Codec.{max_alloc}
use uniqcol.Query.Aggregate.{is_negative}
use uniqcol.Bloom.Sizing.Laws.{IsIeee}
use uniqcol.Bloom.Sizing.{Floats}
use uniqcol.Binary.{put_uint_le}
use Prim.Native.Nat.{min}
use uniqcol.Bench.Distinct.{AreDistinct, length-AreDistinct}
use uniqcol.Bench.Rows.{gen_rows_lem, IsInRange}
use uniqcol.Bench.{bench_schema, RowFloats, Random, gen_rows, wanted_dups}
use uniqcol.Bench.Ids.{
  HasId, HaveIds, IsBetween, count_from, count_from-IsBetween, length-count_from,
}
use uniqcol.Storage.Types.{ColumnType, Row, Value, validate, pk_index}

-- A row whose key has the property.
abbrev WithId : (ℕ → Type 0) → Row → Type 0
WithId P row = (id : ℕ) × HasId id row × P id

HaveIds-WithId :
    (P : ℕ → Type 0) (ids : List ℕ) (rows : List Row)
    → HaveIds ids rows
    → All P ids
    → All (WithId P) rows
HaveIds-WithId P [] [] h ps = tt
HaveIds-WithId P [] (row ∷ rows) h ps = elim h [ ]
HaveIds-WithId P (i ∷ ids) [] h ps = elim h [ ]
HaveIds-WithId P (i ∷ ids) (row ∷ rows) (h, hs) (p, ps) =
    ((i, h, p), HaveIds-WithId P ids rows hs ps)

get_or-of_get : (row : Row) (v : Value) → get_elem? row 0 ≡ some v → get_or row 0 Value.nil ≡ v
get_or-of_get [] v h = cc
get_or-of_get (x ∷ row) v h = cc

key_of-HasId :
    (id : ℕ) (row : Row) → HasId id row → key_of 0 ColumnType.int64 row ≡ inr (put_uint_le 8 id)
unfolding pk_bytes
key_of-HasId id row (at, _, _) = rw (get_or-of_get row (Value.int64 id) at) refl

-- The keys of rows with different keys.
DistinctKeys-ids :
    (P : ℕ → Type 0) (rows : List Row)
    → All (WithId P) rows
    → DistinctKeys 0 ColumnType.int64 rows
    → (ids : List ℕ) × HaveIds ids rows × AreDistinct ids × All P ids
DistinctKeys-ids P [] h d = ([], tt, tt, tt)
DistinctKeys-ids P (row ∷ rows) ((i, has, p), hs) (apart, d) =
    let (ids, have, distinct, ps) = DistinctKeys-ids P rows hs d in
    (i ∷ ids, (has, have), (new_id i row ids rows has have apart, distinct), (p, ps))
  where
    new_id :
        (i : ℕ) (row : Row) (ids : List ℕ) (rows : List Row)
        → HasId i row
        → HaveIds ids rows
        → All (λ s. key_of 0 ColumnType.int64 row ≢ key_of 0 ColumnType.int64 s) rows
        → All (λ j. i ≢ j) ids
    new_id i row [] rows has have apart = tt
    new_id i row (j ∷ ids) [] has have apart = elim have [ ]
    new_id i row (j ∷ ids) (s ∷ rows) has (has_s, have) (other, apart) = (
      λ same. other (
          key_of-HasId i row has
          ∙ ap (λ id. inr (put_uint_le 8 id)) same
          ∙ sym (key_of-HasId j s has_s)),
      new_id i row ids rows has have apart,
    )

length-HaveIds : (ids : List ℕ) (rows : List Row) → HaveIds ids rows → length rows ≡ length ids
length-HaveIds [] [] h = refl
length-HaveIds [] (row ∷ rows) h = elim h [ ]
length-HaveIds (i ∷ ids) [] h = elim h [ ]
length-HaveIds (i ∷ ids) (row ∷ rows) (h, hs) = ap suc (length-HaveIds ids rows hs)

create_table-bench_schema :
    (fl : Floats) (opts : TableOptions fl.Float) (t : Table)
    → create_table fl bench_schema opts ≡ ok t
    → (t.pk_idx ≡ 0) × (t.pk_type ≡ ColumnType.int64)
unfolding create_table bench_schema pk_index table_at
create_table-bench_schema fl opts t e =
    let (_, _, e₁) = >>=-eq-ok (map_err CreateError.schema (validate bench_schema)) _ e in
    let (f, _, e₂) = >>=-eq-ok (create_bloom fl opts opts.bloom_disabled) _ e₁ in
    subst (λ (u : Table). (u.pk_idx ≡ 0) × (u.pk_type ≡ ColumnType.int64)) (ok-injective e₂)
      (refl, refl)

-- Let `CreateTable` return a table with the benchmark's schema and with the filter enabled, and let
-- the `n` rows of `GenRows` be offered to `Insert`. Then at most as many are accepted as are not
-- copies: `n` less the floor of the fraction of `n`, or 1 if that is less. The float64 operations
-- are assumed to be as `IsIeee` says, the bounds of `Intn` are kept, `n` is positive, the floor is
-- not negative, and the slice of rows takes at most 2 ^ 48 bytes.
pub gen_rows-accepted :
    (fl : Floats) (ieee : IsIeee fl) (opts : TableOptions fl.Float) (t : Table) (rf : RowFloats)
    (rnd : Random) (n d seed : ℕ)
    → opts.bloom_disabled ≡ false
    → create_table fl bench_schema opts ≡ ok t
    → IsInRange rnd
    → 1 ≤ n
    → 24 * n ≤ max_alloc
    → is_negative (wanted_dups rf n d) ≡ false
    → (rows : List Row) × (gen_rows rf rnd n d seed ≡ ok rows)
      × (length rows ≡ n)
      × (length (accepted_of t rows) ≤ n - min (wanted_dups rf n d) (n - 1))
gen_rows-accepted fl ieee opts t rf rnd n d seed enabled made in_range pos small sign =
    let (rows, copies, generated, len, have, between) =
      gen_rows_lem rf rnd n d seed in_range pos small sign in
    let u = n - min (wanted_dups rf n d) (n - 1) in
    let (at, type) = create_table-bench_schema fl opts t made in
    let all_between =
      All-append (IsBetween 1 u) (count_from 1 u) copies
        (count_from-IsBetween 1 u 1 u (omega arith) (omega arith)) between in
    let with_ids =
      All-accepted_of (WithId (IsBetween 1 u)) t rows
        (HaveIds-WithId (IsBetween 1 u) (count_from 1 u ++ copies) rows have all_between) in
    let distinct =
      subst (λ i. DistinctKeys i ColumnType.int64 (accepted_of t rows)) at
        (subst (λ p. DistinctKeys t.pk_idx p (accepted_of t rows)) type
          (create_table-insert_all fl ieee bench_schema opts t rows enabled made).1) in
    let (ids, have_ids, apart, bounded) =
      DistinctKeys-ids (IsBetween 1 u) (accepted_of t rows) with_ids distinct in
    (
      rows,
      generated,
      omega (
        arith,
        length-HaveIds _ rows have,
        length-append (count_from 1 u) copies,
        length-count_from 1 u,
        len,
      ),
      omega (
        arith,
        length-HaveIds ids (accepted_of t rows) have_ids,
        length-AreDistinct u ids apart bounded,
      ),
    )

-- ===== src/Storage/Table/Sessions.antt =====
-- Whole sessions: a table from `CreateTable`, and any rows offered to it.
use uniqcol.Common.{
  >>=-eq-ok, All, Bytes, List, Option, Option-cases, [], ap, arith, false, get_elem?, inl, inr,
  length, map_err, map_err-eq-ok, none, ok, ok-injective, refl, some, subst, suc, sym, true, ℕ, ◌%◌,
  ◌++◌, ◌+◌, ◌-◌, ◌<◌, ◌∙◌, ◌∷◌, ◌≡◌, ◌≤◌, ◌⊎◌,
}
use uniqcol.Storage.Buffer.{new_write_buffer}
use uniqcol.Storage.Types.{Schema, Row, validate, pk_index, ColumnType}
use uniqcol.Storage.Table.Insert.{key_of, insert_known}
use uniqcol.Storage.Table.History.{
  insert_all, Known, Holds, accepted_of, DistinctKeys, insert_all-Holds,
}
use uniqcol.Storage.Table.{
  Reason, Table, table_at, insert, TableOptions, CreateError, create_bloom, create_table,
}
use uniqcol.Storage.Buffer.Cells.{new_write_buffer-Represents, Represents}
use uniqcol.Bloom.Sizing.Laws.{IsIeee, new-IsValid}
use uniqcol.Bloom.Sizing.{Floats}
use uniqcol.Bloom.Filter.Membership.{IsValid}
use uniqcol.Bloom.Filter.{Filter, u64_mod}

-- Offering rows never changes the schema, nor which column is the key.
insert-shape :
    (t : Table) (row : Row)
    → ((insert t row).0.schema ≡ t.schema)
      × ((insert t row).0.pk_idx ≡ t.pk_idx)
      × ((insert t row).0.pk_type ≡ t.pk_type)
unfolding insert
insert-shape t row = ground arith

pub insert_all-shape :
    (t : Table) (rows : List Row)
    → ((insert_all t rows).schema ≡ t.schema)
      × ((insert_all t rows).pk_idx ≡ t.pk_idx)
      × ((insert_all t rows).pk_type ≡ t.pk_type)
unfolding insert_all
insert_all-shape t [] = (refl, refl, refl)
insert_all-shape t (row ∷ rows) =
    let (s, i, p) = insert_all-shape (insert t row).0 rows in
    let (s', i', p') = insert-shape t row in (s ∙ s', i ∙ i', p ∙ p')

pub insert-counts :
    (t : Table) (row : Row)
    → t.accepted < u64_mod
    → t.rejected < u64_mod
    → ((insert t row).0.accepted < u64_mod)
      × ((insert t row).0.rejected < u64_mod)
      × (((insert t row).0.accepted + (insert t row).0.rejected) % u64_mod
          ≡ (t.accepted + t.rejected + 1) % u64_mod)
unfolding insert
insert-counts t row ha hr = ground arith

-- Each counter by the result of the call.
insert-counter :
    (t : Table) (row : Row)
    → ((insert t row).1.accepted ≡ true)
        × ((insert t row).0.accepted ≡ (t.accepted + 1) % u64_mod)
        × ((insert t row).0.rejected ≡ t.rejected)
      ⊎ ((insert t row).1.accepted ≡ false)
        × ((insert t row).0.accepted ≡ t.accepted)
        × ((insert t row).0.rejected ≡ (t.rejected + 1) % u64_mod)
unfolding insert
insert-counter t row = ground arith

accepted_of-cases :
    (t : Table) (row : Row) (rows : List Row)
    → ((insert t row).1.accepted ≡ true
        → length (accepted_of t (row ∷ rows)) ≡ suc (length (accepted_of (insert t row).0 rows)))
      × ((insert t row).1.accepted ≡ false
          → length (accepted_of t (row ∷ rows)) ≡ length (accepted_of (insert t row).0 rows))
unfolding accepted_of
accepted_of-cases t row rows = (λ h. rw h refl, λ h. rw h refl)

-- A filter that has room for its positions, or none.
abbrev pub SoundFilter : Option Filter → Type 0
SoundFilter none = Unit
SoundFilter (some f) = IsValid f

insert_all-counters :
    (t : Table) (rows : List Row)
    → t.accepted < u64_mod
    → t.rejected < u64_mod
    → (length (accepted_of t rows) ≤ length rows)
      × ((insert_all t rows).accepted ≡ (t.accepted + length (accepted_of t rows)) % u64_mod)
      × ((insert_all t rows).rejected
          ≡ (t.rejected + (length rows - length (accepted_of t rows))) % u64_mod)
unfolding insert_all
insert_all-counters t [] ha hr = unfold accepted_of in (omega arith, omega arith, omega arith)
insert_all-counters t (row ∷ rows) ha hr =
    let (a, r, _) = insert-counts t row ha hr in
    let (fewer, acc, rej) = insert_all-counters (insert t row).0 rows a r in
    let (counted, not_counted) = accepted_of-cases t row rows in
    elim (insert-counter t row) [
      | inl (yes_row, one_more, same) ↦
          let size = counted yes_row in
          (
            omega (arith, size, fewer),
            omega (arith, size, acc, one_more),
            omega (arith, size, rej, same, fewer),
          )
      | inr (no_row, same, one_more) ↦
          let size = not_counted no_row in
          (
            omega (arith, size, fewer),
            omega (arith, size, acc, same),
            omega (arith, size, rej, one_more, fewer),
          )
    ]

-- Let a table have a well-formed filter or none, and counters that are words of 64 bits. When rows
-- are offered to `Insert` one after the other, the counter of the accepted ones grows by the number
-- of the rows that were accepted, and the counter of the rejected ones by the number of the others,
-- modulo 2 ^ 64.
pub insert_all-counts :
    (t : Table) (rows : List Row)
    → SoundFilter t.bloom
    → t.accepted < u64_mod
    → t.rejected < u64_mod
    → ((insert_all t rows).accepted ≡ (t.accepted + length (accepted_of t rows)) % u64_mod)
      × ((insert_all t rows).rejected
          ≡ (t.rejected + (length rows - length (accepted_of t rows))) % u64_mod)
insert_all-counts t rows sound ha hr =
    let (_, counted, rejected) = insert_all-counters t rows ha hr in (counted, rejected)

-- A row in a list that satisfies a predicate throughout.
pub All-middle {ℓ} :
    {A : Type ℓ} (P : A → Type 0) (xs : List A) (a : A) (ys : List A) → All P (xs ++ a ∷ ys) → P a
All-middle P [] a ys (h, hs) = h
All-middle P (x ∷ xs) a ys (h, hs) = All-middle P xs a ys hs

-- A row whose key an accepted row has.
duplicate_held :
    (t : Table) (f : Filter) (before after : List Row) (row again : Row) (key : Bytes)
    → Holds t f (before ++ row ∷ after)
    → length again ≡ length t.schema.columns
    → key_of t.pk_idx t.pk_type row ≡ inr key
    → key_of t.pk_idx t.pk_type again ≡ inr key
    → (insert t again).1 ≡ record { accepted = false; reason = some Reason.duplicate }
duplicate_held t f before after row again key h same is_key again_key =
    insert_known t again f key h.filter same again_key
      (subst (Known f) is_key (All-middle _ before row after h.known))

module _ (fl : Floats) (ieee : IsIeee fl) where
  table_at-Holds :
      (s : Schema) (f : Filter) (i : Option ℕ) (t : Table)
      → IsValid f
      → table_at s (some f) i ≡ ok t
      → Holds t f []
  unfolding table_at new_write_buffer
  table_at-Holds s f none t v e = cc
  table_at-Holds s f (some i) t v e = elim (Option-cases (get_elem? s.columns i)) [
    | inl absent ↦ cc (rw (absent, table_at) at e)
    | inr (c, found) ↦
        subst (λ (u : Table). Holds u f []) (ok-injective (rw (found, table_at) at e))
          (record {
            filter = refl;
            valid = v;
            held = new_write_buffer-Represents s;
            schema = refl;
            known = tt;
            distinct = tt;
          })
  ]

  create_bloom-IsValid :
      (opts : TableOptions fl.Float) (f : Option Filter)
      → create_bloom fl opts false ≡ ok f
      → (g : Filter) × (f ≡ some g) × IsValid g
  unfolding create_bloom
  create_bloom-IsValid opts f e =
      let (g, made, same) = >>=-eq-ok (map_err CreateError.bloom _) _ e in
      (
        g,
        sym (ok-injective same),
        (new-IsValid fl ieee _ _ g (map_err-eq-ok CreateError.bloom _ made)).0,
      )

  pub create_table-Holds :
      (s : Schema) (opts : TableOptions fl.Float) (t : Table)
      → opts.bloom_disabled ≡ false
      → create_table fl s opts ≡ ok t
      → (f : Filter) × Holds t f []
  unfolding create_table
  create_table-Holds s opts t enabled e =
      let (_, _, e₁) = >>=-eq-ok (map_err CreateError.schema (validate s)) _ e in
      let (o, made, e₂) = >>=-eq-ok (create_bloom fl opts opts.bloom_disabled) _ e₁ in
      let (f, is_f, v) = create_bloom-IsValid opts o (rw enabled at made) in
      (f, table_at-Holds s f (pk_index s) t v (rw is_f at e₂))

  -- Let `CreateTable` return a table, with the filter enabled, and let any rows be offered to
  -- `Insert` one after the other. Then the buffer holds exactly the accepted rows, in their order
  -- and column by column, and no two of them have the same key. The float64 operations are assumed
  -- to be as `IsIeee` says.
  pub create_table-insert_all :
      (s : Schema) (opts : TableOptions fl.Float) (t : Table) (offered : List Row)
      → opts.bloom_disabled ≡ false
      → create_table fl s opts ≡ ok t
      → Represents (insert_all t offered).buf (accepted_of t offered)
        × DistinctKeys t.pk_idx t.pk_type (accepted_of t offered)
  create_table-insert_all s opts t offered enabled e =
      let (f, h) = create_table-Holds s opts t enabled e in
      let (g, after) = insert_all-Holds t f [] offered h in
      let (_, same_idx, same_type) = insert_all-shape t offered in
      (
        after.held,
        subst (λ i. DistinctKeys i t.pk_type (accepted_of t offered)) same_idx
            (subst
              (λ (p : ColumnType).
                DistinctKeys (insert_all t offered).pk_idx p (accepted_of t offered))
              same_type after.distinct),
      )

  -- Let `CreateTable` return a table, with the filter enabled, and let rows be offered to `Insert`.
  -- When one of the accepted rows has the key `key`, any further row of the right length with that
  -- key is rejected as a duplicate, whatever was offered in between and whatever its other cells
  -- are. The float64 operations are assumed to be as `IsIeee` says.
  pub duplicate_rejected :
      (s : Schema) (opts : TableOptions fl.Float) (t : Table) (offered before after : List Row)
      (row again : Row) (key : Bytes)
      → opts.bloom_disabled ≡ false
      → create_table fl s opts ≡ ok t
      → accepted_of t offered ≡ before ++ row ∷ after
      → length again ≡ length t.schema.columns
      → key_of t.pk_idx t.pk_type row ≡ inr key
      → key_of t.pk_idx t.pk_type again ≡ inr key
      → (insert (insert_all t offered) again).1
        ≡ record { accepted = false; reason = some Reason.duplicate }
  duplicate_rejected s opts t offered before after row again key enabled e split same is_key
        again_key =
      let (f, h) = create_table-Holds s opts t enabled e in
      let (g, h') = insert_all-Holds t f [] offered h in
      let (same_schema, same_idx, same_type) = insert_all-shape t offered in
      duplicate_held (insert_all t offered) g before after row again key
        (subst (Holds (insert_all t offered) g) split h')
        (same ∙ ap (λ (u : Schema). length u.columns) (sym same_schema))
        (ap (λ i. key_of i (insert_all t offered).pk_type row) same_idx
          ∙ ap (λ p. key_of t.pk_idx p row) same_type
          ∙ is_key)
        (ap (λ i. key_of i (insert_all t offered).pk_type again) same_idx
          ∙ ap (λ p. key_of t.pk_idx p again) same_type
          ∙ again_key)

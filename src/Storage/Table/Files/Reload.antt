-- ===== src/Storage/Table/Files/Reload.antt =====
-- A table that is written to a file and loaded again.
use uniqcol.Common.{
  >>=-eq-ok, All, Bytes, List, Option, Option-cases, [], ap, arith, false, get_elem?, inl, inr,
  length, map_err, map_err-eq-ok, none, ok, ok-injective, refl, some, subst, sym, true, ℕ, ◌++◌,
  ◌==◌, ◌∙◌, ◌∷◌, ◌≡◌, ◌≤◌,
}
use uniqcol.Bloom.Sizing.{Floats}
use uniqcol.Bloom.Sizing.Laws.{IsIeee}
use uniqcol.Bloom.Filter.{Filter, contains}
use uniqcol.Storage.Types.{Schema, Row, validate, pk_index}
use uniqcol.Storage.Buffer.{WriteBuffer, new_write_buffer, len}
use uniqcol.Storage.Table.{
  Table, TableOptions, Reason, CreateError, table_at, create_bloom, create_table, insert,
}
use uniqcol.Storage.Table.Insert.{key_of, insert_known}
use uniqcol.Storage.Table.History.{insert_all, accepted_of, Holds, Known, insert_all-Holds}
use uniqcol.Storage.Table.Sessions.{create_table-Holds, insert_all-shape, All-middle}
use uniqcol.Storage.Table.Files.{flush, load_table}
use uniqcol.Storage.Segment.{Segment}
use uniqcol.Storage.Segment.Write.{WriteSegmentOpts, write_segment}
use uniqcol.Bloom.Filter.Membership.{IsValid}
use uniqcol.Storage.Segment.Parse.{parse_segment}
use uniqcol.Storage.Segment.Parse.Frame.{FilterFits}
use uniqcol.Storage.Segment.RoundTrip.{written, parse_segment-write_segment}
use uniqcol.Binary.{IsU64}

load_table_lem :
    (buf : Bytes) (s : Segment) (f : Filter) (t : Table)
    → parse_segment buf ≡ ok s
    → s.version ≡ 2
    → 1 ≤ length s.pk_name
    → s.bloom_filter ≡ some f
    → validate s.schema ≡ ok tt
    → table_at s.schema (some f) (pk_index s.schema) ≡ ok t
    → load_table buf ≡ ok t
unfolding load_table
load_table_lem buf s f t parsed two named has valid made =
    let named' : (length s.pk_name == 0) ≡ false = ground arith in
    rw (load_table, parsed, two, named', has, valid, made)

-- Another filter makes the same table but for the filter.
pub table_at_other :
    (s : Schema) (f g : Option Filter) (i : Option ℕ) (t : Table)
    → table_at s f i ≡ ok t
    → (table_at s g i ≡ ok (record t { bloom = g })) × (t.schema ≡ s) × (t.buf ≡ new_write_buffer s)
unfolding table_at
table_at_other s f g none t e = cc
table_at_other s f g (some i) t e = elim (Option-cases (get_elem? s.columns i)) [
  | inl absent ↦ cc (rw (absent, table_at) at e)
  | inr (c, found) ↦
      let made = ok-injective (rw (found, table_at) at e) in
      (
        rw (found, table_at) (ap (λ (u : Table). ok (record u { bloom = g })) made),
        sym (ap (λ (u : Table). u.schema) made),
        sym (ap (λ (u : Table). u.buf) made),
      )
]

-- What `CreateTable` returned: the schema is valid, and the table is the one at the key's position.
pub create_table_parts :
    (fl : Floats) (s : Schema) (opts : TableOptions fl.Float) (t : Table)
    → create_table fl s opts ≡ ok t
    → (validate s ≡ ok tt) × (f : Option Filter) × (table_at s f (pk_index s) ≡ ok t)
unfolding create_table
create_table_parts fl s opts t e =
    let (_, valid, e₁) = >>=-eq-ok (map_err CreateError.schema (validate s)) _ e in
    let (o, made, e₂) = >>=-eq-ok (create_bloom fl opts opts.bloom_disabled) _ e₁ in
    (map_err-eq-ok CreateError.schema _ valid, o, e₂)

load_written :
    (s : Schema) (b : WriteBuffer) (g : Filter) (t : Table) (file : Bytes)
    → write_segment s b (record { pk_name = s.pk; bloom = some g }) ≡ ok file
    → IsU64 (length file)
    → IsU64 (len b)
    → IsValid g
    → 1 ≤ length s.pk
    → validate s ≡ ok tt
    → table_at s (some g) (pk_index s) ≡ ok t
    → load_table file ≡ ok t
unfolding written FilterFits
load_written s b g t file e hf hr v named valid made =
    let options : WriteSegmentOpts = record { pk_name = s.pk; bloom = some g } in
    load_table_lem file (written s b options) g t
      (parse_segment-write_segment s b options file e hf hr v) refl named refl valid made

pub flush_lem :
    (u : Table) (s : Schema) (g : Filter)
    → u.schema ≡ s
    → u.bloom ≡ some g
    → flush u ≡ write_segment s u.buf (record { pk_name = s.pk; bloom = some g })
unfolding flush
flush_lem u s g is_schema has =
    ap (λ (v : Schema). write_segment v u.buf (record { pk_name = v.pk; bloom = u.bloom }))
      is_schema
    ∙ ap (λ o. write_segment s u.buf (record { pk_name = s.pk; bloom = o })) has

-- The key of an accepted row is known to the filter.
Holds-Known :
    (t : Table) (g : Filter) (rows before after : List Row) (row : Row) (key : Bytes)
    → Holds t g rows
    → rows ≡ before ++ row ∷ after
    → key_of t.pk_idx t.pk_type row ≡ inr key
    → contains g key ≡ true
Holds-Known t g rows before after row key h split is_key = subst (Known g) is_key (
    All-middle _ before row after
      (subst (All (λ r. Known g (key_of t.pk_idx t.pk_type r))) split h.known))

module _ (fl : Floats) (ieee : IsIeee fl) where
  -- The file of a table, loaded.
  load_table-flush :
      (s : Schema) (opts : TableOptions fl.Float) (t : Table) (offered : List Row) (g : Filter)
      (file : Bytes)
      → create_table fl s opts ≡ ok t
      → Holds (insert_all t offered) g (accepted_of t offered)
      → flush (insert_all t offered) ≡ ok file
      → 1 ≤ length s.pk
      → IsU64 (length file)
      → IsU64 (len (insert_all t offered).buf)
      → load_table file ≡ ok (record t { bloom = some g })
  load_table-flush s opts t offered g file e h flushed named hf hr =
      let (valid, f, made) = create_table_parts fl s opts t e in
      let (made', is_schema, _) = table_at_other s f (some g) (pk_index s) t made in
      let (same, _, _) = insert_all-shape t offered in
      load_written s (insert_all t offered).buf g _ file
        (sym (flush_lem (insert_all t offered) s g (same ∙ is_schema) h.filter) ∙ flushed) hf hr
        h.valid named valid made'

  -- Uniqueness across sessions. Let `CreateTable` return a table, with the filter enabled, whose
  -- key has a name that is not empty. Let rows be offered to it, and let `Flush` write it. If the
  -- length of the file and the count of the accepted rows are below 2 ^ 64, then `LoadTable` makes
  -- of the file a table with the same schema and an empty buffer, and this table rejects as a
  -- duplicate any row of the right length whose key an accepted row had. The float64 operations are
  -- assumed to be as `IsIeee` says.
  pub reload_rejects :
      (s : Schema) (opts : TableOptions fl.Float) (t : Table) (offered before after : List Row)
      (row again : Row) (key file : Bytes)
      → opts.bloom_disabled ≡ false
      → create_table fl s opts ≡ ok t
      → accepted_of t offered ≡ before ++ row ∷ after
      → flush (insert_all t offered) ≡ ok file
      → 1 ≤ length s.pk
      → IsU64 (length file)
      → IsU64 (length (accepted_of t offered))
      → length again ≡ length s.columns
      → key_of t.pk_idx t.pk_type row ≡ inr key
      → key_of t.pk_idx t.pk_type again ≡ inr key
      → (u : Table) × (load_table file ≡ ok u)
        × (u.schema ≡ s)
        × (u.buf ≡ new_write_buffer s)
        × ((insert u again).1 ≡ record { accepted = false; reason = some Reason.duplicate })
  unfolding len
  reload_rejects s opts t offered before after row again key file on e split flushed named hf hr
        same is_key again_key =
      let (f, h₀) = create_table-Holds fl ieee s opts t on e in
      let (g, h) = insert_all-Holds t f [] offered h₀ in
      let (valid, o, made) = create_table_parts fl s opts t e in
      let (_, is_schema, is_new) = table_at_other s o (some g) (pk_index s) t made in
      let (_, same_idx, same_type) = insert_all-shape t offered in
      let u : Table = record t { bloom = some g } in
      let rows_fit : IsU64 (len (insert_all t offered).buf) = subst IsU64 (sym h.held.count) hr in
      let key_kept =
        ap (λ i. key_of i (insert_all t offered).pk_type row) same_idx
        ∙ ap (λ p. key_of t.pk_idx p row) same_type
        ∙ is_key in
      let known = Holds-Known (insert_all t offered) g _ before after row key h split key_kept in
      (
        u,
        load_table-flush s opts t offered g file e h flushed named hf rows_fit,
        is_schema,
        is_new,
        insert_known u again g key refl
            (same ∙ ap (λ (v : Schema). length v.columns) (sym is_schema)) again_key known,
      )

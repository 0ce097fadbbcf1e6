-- ===== src/Storage/Segment/ReadBack.antt =====
-- A segment written from a buffer, parsed, and read column by column.
use uniqcol.Common.{
  >>=-eq-ok, All, All-imp, All-map, Bytes, List, Option-cases, [], ap, arith, fail_if-eq-ok,
  get_elem?, inl, inr, length, length-map, ltb, map, none, ok, ok-injective, or_fail, refl, some,
  subst, sym, ℕ, ◌*◌, ◌∙◌, ◌∷◌, ◌≡◌, ◌≤◌,
}
use native.Mathlib.Nat.{zero-add}
use uniqcol.Storage.Segment.Parse.Steps.{block_at-some}
use uniqcol.Storage.Segment.Parse.Frame.{FilterFits}
use uniqcol.Storage.Segment.Columns.{
  Encodable, values_of, put_columns-buffered, lookup_self, lookup-blocks_of, cell-Encodable,
  decode_column-buffered,
}
use uniqcol.Storage.Codec.{max_alloc}
use uniqcol.Storage.Buffer.Cells.{cell, Represents, column_values}
use uniqcol.Storage.Types.Schemas.{DistinctNames, First-get_elem?, column_index_iff}
use uniqcol.Storage.Segment.{Segment, Decoded, ColumnBlock, lookup}
use uniqcol.Storage.Segment.Write.{
  WriteSegmentOpts, block_of, put_columns, put_bloom, buffered, write_segment,
}
use uniqcol.Storage.Segment.Read.{decode_column, read_fresh, read_column, type_at}
use uniqcol.Storage.Segment.Parse.{parse_segment}
use uniqcol.Storage.Segment.RoundTrip.{written, parse_segment-write_segment}
use uniqcol.Storage.Buffer.{WriteBuffer, len}
use uniqcol.Storage.Types.{Schema, Column, column_index, Row}
use uniqcol.Binary.{IsU64}

-- The two branches of `ReadColumn`.
pub read_column_cached :
    (s : Segment) (name : Bytes) (vals : Decoded)
    → lookup name s.decoded ≡ some vals
    → read_column s name ≡ ok (s, vals)
unfolding read_column
read_column_cached s name vals h = rw (h, read_column)

pub read_column_absent :
    (s : Segment) (name : Bytes)
    → lookup name s.decoded ≡ none
    → read_column s name ≡ read_fresh s name
unfolding read_column
read_column_absent s name h = rw (h, read_column)

type_at-some :
    (columns : List Column) (i : ℕ) (c : Column)
    → get_elem? columns i ≡ some c
    → type_at columns (some i) ≡ ok c.type
unfolding type_at
type_at-some columns i c h = rw (h, type_at)

read_fresh_lem :
    (s : Segment) (c : Column) (i : ℕ) (block : ColumnBlock) (vals : Decoded)
    → lookup c.name s.blocks ≡ some block
    → column_index s.schema c.name ≡ some i
    → get_elem? s.schema.columns i ≡ some c
    → decode_column c.type block.encoding block.payload s.row_count c.name ≡ ok vals
    → read_fresh s c.name ≡ ok (record s { decoded = (c.name, vals) ∷ s.decoded }, vals)
unfolding read_fresh
read_fresh_lem s c i block vals found pos at decoded =
    rw (found, pos, type_at-some s.schema.columns i c at, decoded)

read_fresh_cached :
    (s t : Segment) (name : Bytes) (vals : Decoded)
    → read_fresh s name ≡ ok (t, vals)
    → lookup name t.decoded ≡ some vals
unfolding read_fresh
read_fresh_cached s t name vals e =
    let (block, found, e₁) = >>=-eq-ok (or_fail (lookup name s.blocks) _) _ e in
    let (u, typed, e₂) = >>=-eq-ok (type_at s.schema.columns (column_index s.schema name)) _ e₁ in
    let (d, decoded, e₃) =
      >>=-eq-ok (decode_column u block.encoding block.payload s.row_count name) _ e₂ in
    subst (λ (p : Segment × Decoded). lookup name p.0.decoded ≡ some p.1) (ok-injective e₃)
      (lookup_self name d s.decoded)

-- When `ReadColumn` gave values, reading the column again gives the same ones and leaves the
-- segment as it is.
pub read_column_again :
    (s t : Segment) (name : Bytes) (vals : Decoded)
    → read_column s name ≡ ok (t, vals)
    → read_column t name ≡ ok (t, vals)
read_column_again s t name vals e = elim (Option-cases (lookup name s.decoded)) [
  | inr (cached, found) ↦
      let same = ok-injective (sym (read_column_cached s name cached found) ∙ e) in
      let unchanged : s ≡ t = ap (λ (p : Segment × Decoded). p.0) same in
      subst (λ (u : Segment). read_column u name ≡ ok (t, vals)) unchanged e
  | inl absent ↦
      read_column_cached t name vals
        (read_fresh_cached s t name vals (sym (read_column_absent s name absent) ∙ e))
]

-- The block of a column that the buffer holds.
written_block :
    (b : WriteBuffer) (schema : Schema) (opts : WriteSegmentOpts) (i : ℕ) (c : Column)
    (vals : Decoded)
    → buffered b i c.type ≡ some vals
    → DistinctNames schema.columns
    → get_elem? schema.columns i ≡ some c
    → lookup c.name (written schema b opts).blocks ≡ some (block_of vals)
unfolding written
written_block b schema opts i c vals is_vals distinct at =
    rw (zero-add i) at (lookup-blocks_of b 0 i c schema.columns [] distinct at)
    ∙ ap some (sym (block_at-some b i c.type vals is_vals))

-- The segment of the buffer, for a column whose slice the buffer holds.
pub read_column-written :
    (b : WriteBuffer) (schema : Schema) (opts : WriteSegmentOpts) (rows : List Row) (i : ℕ)
    (c : Column) (vals : Decoded)
    → buffered b i c.type ≡ some vals
    → len b ≡ length rows
    → column_values b i c.type ≡ map (cell i) rows
    → 16 * length rows ≤ max_alloc
    → All (All Encodable) rows
    → DistinctNames schema.columns
    → get_elem? schema.columns i ≡ some c
    → (read_column (written schema b opts) c.name
        ≡ ok (record (written schema b opts) { decoded = (c.name, vals) ∷ [] }, vals))
      × (values_of vals ≡ map (cell i) rows)
unfolding written lookup
read_column-written b schema opts rows i c vals is_vals count cells room fit distinct at =
    let size : len b ≡ length (column_values b i c.type) =
      count ∙ sym (ap length cells ∙ length-map (cell i) rows) in
    let encodable : All Encodable (column_values b i c.type) = subst (All Encodable) (sym cells) (
      All-map Encodable (cell i) rows
        (All-imp (All Encodable) (λ r. Encodable (cell i r)) rows (cell-Encodable i) fit)) in
    let (decoded, is_cells) =
      decode_column-buffered b i c.type c.name (len b) vals is_vals size (omega arith) encodable in
    (
      read_column_absent (written schema b opts) c.name refl
          ∙ read_fresh_lem (written schema b opts) c i (block_of vals) vals
              (written_block b schema opts i c vals is_vals distinct at)
              ((column_index_iff _ c.name i).1 (First-get_elem? i c schema.columns distinct at)) at
              decoded,
      is_cells ∙ cells,
    )

pub write_segment-buffered :
    (schema : Schema) (b : WriteBuffer) (opts : WriteSegmentOpts) (out : Bytes) (i : ℕ) (c : Column)
    → write_segment schema b opts ≡ ok out
    → get_elem? schema.columns i ≡ some c
    → (vals : Decoded) × (buffered b i c.type ≡ some vals)
unfolding write_segment
write_segment-buffered schema b opts out i c e at =
    let (few, e₁) = fail_if-eq-ok (ltb 0xffff (length schema.columns)) _ _ e in
    let (columns, put, e₂) =
      >>=-eq-ok (put_columns b 0 schema.columns (put_bloom opts.bloom)) _ e₁ in
    rw (zero-add i) at (put_columns-buffered b 0 i c schema.columns _ columns put at)

-- Let a buffer hold some rows, and let `WriteSegment` write it without an error, with the buffer's
-- schema, whose column names are pairwise different, and with a well-formed filter or none. If the
-- numbers in the rows are words of 64 bits, the length of the file and those of the strings are
-- below 2 ^ 64, and `make` has room for the rows, then `parseSegment` accepts the file, and the
-- first `ReadColumn` of any column gives the cells of that column, row by row.
pub read_column-write_segment :
    (schema : Schema) (b : WriteBuffer) (opts : WriteSegmentOpts) (out : Bytes) (rows : List Row)
    (i : ℕ) (c : Column)
    → write_segment schema b opts ≡ ok out
    → IsU64 (length out)
    → FilterFits opts.bloom
    → b.schema ≡ schema
    → Represents b rows
    → 16 * length rows ≤ max_alloc
    → All (All Encodable) rows
    → DistinctNames schema.columns
    → get_elem? schema.columns i ≡ some c
    → (t : Segment) × (vals : Decoded) × (parse_segment out ≡ ok (written schema b opts))
      × (read_column (written schema b opts) c.name ≡ ok (t, vals))
      × (values_of vals ≡ map (cell i) rows)
unfolding len
read_column-write_segment schema b opts out rows i c e ho v same held room fit distinct at =
    let (vals, is_vals) = write_segment-buffered schema b opts out i c e at in
    let in_buffer = subst (λ (u : Schema). get_elem? u.columns i ≡ some c) (sym same) at in
    let (found, cells) =
      read_column-written b schema opts rows i c vals is_vals held.count (held.cells i c in_buffer)
        room fit distinct at in
    let parsed =
      parse_segment-write_segment schema b opts out e ho (omega (arith, held.count, room)) v in
    (record (written schema b opts) { decoded = (c.name, vals) ∷ [] }, vals, parsed, found, cells)

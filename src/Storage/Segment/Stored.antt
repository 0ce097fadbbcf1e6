-- ===== src/Storage/Segment/Stored.antt =====
-- A segment as the list of the rows that are stored in it.
use uniqcol.Common.{
  All, Bytes, List, Result, [], ap, get_elem?, length, map, none, ok, refl, some, subst, sym, ℕ,
  ◌*◌, ◌>>=◌, ◌∙◌, ◌≡◌, ◌≤◌,
}
use uniqcol.Storage.Buffer.Cells.{cell, Represents}
use uniqcol.Storage.Buffer.{WriteBuffer, len}
use uniqcol.Storage.Codec.{max_alloc}
use uniqcol.Storage.Segment.{Segment, Decoded, lookup}
use uniqcol.Storage.Segment.Caching.{SameTable, values_at, values_at_read}
use uniqcol.Storage.Segment.Columns.{Encodable, values_of, lookup-Fresh}
use uniqcol.Storage.Segment.Read.{read_fresh}
use uniqcol.Storage.Segment.ReadBack.{
  read_column-written, write_segment-buffered, read_column_absent,
}
use uniqcol.Storage.Segment.RoundTrip.{written}
use uniqcol.Storage.Segment.Write.{WriteSegmentOpts, write_segment}
use uniqcol.Storage.Types.Schemas.{column_index-none}
use uniqcol.Storage.Types.{Column, Row, Schema, Value, column_index}
use uniqcol.Storage.Types.Schemas.{DistinctNames}

-- The cells that a segment answers with for a column, none where it answers with an error.
abbrev pub cells_in : Result uniqcol.Storage.Segment.Error Decoded → List Value
cells_in (ok d) = values_of d
cells_in _ = []

-- Each column of the schema is read as the cells of the rows, and no other column is read.
pub record Stores (s : Segment) (rows : List Row) : Type 0 where
  pub count : s.row_count ≡ length rows
  pub columns :
      (i : ℕ) (c : Column)
      → get_elem? s.schema.columns i ≡ some c
      → (vals : Decoded) × (values_at s c.name ≡ ok vals) × (values_of vals ≡ map (cell i) rows)
  pub missing :
      (name : Bytes) → column_index s.schema name ≡ none → cells_in (values_at s name) ≡ []

pub Stores-SameTable :
    (s t : Segment) (rows : List Row) → SameTable s t → Stores s rows → Stores t rows
Stores-SameTable s t rows (count, schema, vals) h = record {
  count = count ∙ h.count;
  columns = λ i c at.
      let (d, found, cells) =
        h.columns i c (subst (λ (v : Schema). get_elem? v.columns i ≡ some c) schema at) in
      (d, vals c.name ∙ found, cells);
  missing = λ name absent.
      ap cells_in (vals name)
      ∙ h.missing name (subst (λ (v : Schema). column_index v name ≡ none) schema absent);
}

read_fresh_missing :
    (s : Segment) (name : Bytes)
    → lookup name s.blocks ≡ none
    → cells_in (read_fresh s name >>= λ p. ok p.1) ≡ []
unfolding read_fresh
read_fresh_missing s name absent = rw (read_fresh, absent) refl

-- The segment of a buffer that holds the rows.
pub written-Stores :
    (schema : Schema) (b : WriteBuffer) (opts : WriteSegmentOpts) (out : Bytes) (rows : List Row)
    → write_segment schema b opts ≡ ok out
    → b.schema ≡ schema
    → Represents b rows
    → 16 * length rows ≤ max_alloc
    → All (All Encodable) rows
    → DistinctNames schema.columns
    → Stores (written schema b opts) rows
unfolding written len lookup column_index
written-Stores schema b opts out rows e same held room fit distinct = record {
  count = held.count;
  columns = λ i c at.
      let (vals, is_vals) = write_segment-buffered schema b opts out i c e at in
      let in_buffer = subst (λ (u : Schema). get_elem? u.columns i ≡ some c) (sym same) at in
      let (found, cells) =
        read_column-written b schema opts rows i c vals is_vals held.count
          (held.cells i c in_buffer) room fit distinct at in
      (vals, values_at_read (written schema b opts) _ c.name vals found, cells);
  missing = λ name absent.
      ap
        (λ (m : Result uniqcol.Storage.Segment.Error (Segment × Decoded)).
          cells_in (m >>= λ p. ok p.1))
        (read_column_absent (written schema b opts) name refl)
      ∙ read_fresh_missing (written schema b opts) name
          (lookup-Fresh b name 0 schema.columns [] (column_index-none schema name absent));
}

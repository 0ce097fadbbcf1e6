-- ===== src/Query/Execute/Sessions.antt =====
-- From the rows that are offered to a table to the answers of queries over its file.
use uniqcol.Common.{
  All, Bool, Bytes, List, Option, [], ap, arith, false, length, map, ok, some, subst, sym, ℕ, ◌*◌,
  ◌∙◌, ◌≡◌, ◌≤◌,
}
use uniqcol.Binary.{IsU64}
use uniqcol.Bloom.Sizing.{Floats}
use uniqcol.Bloom.Sizing.Laws.{IsIeee}
use uniqcol.Query.{FloatOps, Query, ProjectionKind}
use uniqcol.Query.Execute.{execute, select_rows}
use uniqcol.Query.Execute.Filtered.{meets_filter}
use uniqcol.Query.Execute.Grouped.{count_answer}
use uniqcol.Query.Execute.Projected.{Located, matching}
use uniqcol.Query.Execute.Star.{execute_star, execute_columns, execute_count_star, projected}
use uniqcol.Storage.Buffer.{len}
use uniqcol.Storage.Codec.{max_alloc}
use uniqcol.Storage.Segment.{Segment}
use uniqcol.Storage.Segment.Caching.{Filled}
use uniqcol.Storage.Segment.Columns.{Encodable}
use uniqcol.Storage.Segment.Parse.{parse_segment}
use uniqcol.Storage.Segment.Parse.Frame.{FilterFits}
use uniqcol.Storage.Segment.RoundTrip.{written, parse_segment-write_segment}
use uniqcol.Storage.Segment.Stored.{Stores, written-Stores}
use uniqcol.Storage.Segment.Write.{WriteSegmentOpts}
use uniqcol.Storage.Table.{Table, TableOptions, create_table}
use uniqcol.Storage.Table.Files.{flush}
use uniqcol.Storage.Table.Files.Reload.{create_table_parts, table_at_other}
use uniqcol.Storage.Table.History.{
  insert_all, accepted_of, insert_all-Holds, accepted_of-lengths, All-accepted_of,
}
use uniqcol.Storage.Table.Sessions.{create_table-Holds, insert_all-shape}
use uniqcol.Storage.Types.{Column, Row, Schema, pk_index}
use uniqcol.Storage.Types.Schemas.{DistinctNames}
use uniqcol.Storage.Types.Validation.{validate_iff}

-- The segment of the file that `Flush` writes.
unfoldable pub file_segment : Table → Segment
unfolding written
file_segment t = written t.schema t.buf (record { pk_name = t.schema.pk; bloom = t.bloom })

module _ (fl : Floats) (ieee : IsIeee fl) (s : Schema) (opts : TableOptions fl.Float) (t : Table)
    (offered : List Row) (file : Bytes) (enabled : opts.bloom_disabled ≡ false)
    (created : create_table fl s opts ≡ ok t) (flushing : flush (insert_all t offered) ≡ ok file)
    (small : IsU64 (length file)) (room : 16 * length (accepted_of t offered) ≤ max_alloc)
    (fit : All (All Encodable) offered) where
  -- The accepted rows, in the segment that the file is parsed to.
  pub session_stored :
      (parse_segment file ≡ ok (file_segment (insert_all t offered)))
      × Stores (file_segment (insert_all t offered)) (accepted_of t offered)
      × Filled (file_segment (insert_all t offered))
      × ((file_segment (insert_all t offered)).schema ≡ s)
      × All (λ row. length row ≡ length s.columns) (accepted_of t offered)
  unfolding flush file_segment written FilterFits len
  session_stored =
      let u = insert_all t offered in
      let (f, h₀) = create_table-Holds fl ieee s opts t enabled created in
      let (g, h) = insert_all-Holds t f [] offered h₀ in
      let (valid, o, made) = create_table_parts fl s opts t created in
      let (_, is_schema, _) = table_at_other s o (some g) (pk_index s) t made in
      let (same, _, _) = insert_all-shape t offered in
      let distinct = ((validate_iff s).0 valid).0 in
      let options : WriteSegmentOpts = record { pk_name = u.schema.pk; bloom = u.bloom } in
      let fits : FilterFits u.bloom = subst FilterFits (sym h.filter) h.valid in
      (
        parse_segment-write_segment u.schema u.buf options file flushing small
            (omega (arith, h.held.count, room)) fits,
        written-Stores u.schema u.buf options file (accepted_of t offered) flushing h.schema h.held
            room (All-accepted_of (All Encodable) t offered fit)
            (subst (λ (v : Schema). DistinctNames v.columns) (sym (same ∙ is_schema)) distinct),
        tt,
        same ∙ is_schema,
        subst (λ (v : Schema). All (λ row. length row ≡ length v.columns) (accepted_of t offered))
            is_schema (accepted_of-lengths t offered),
      )

  -- Let `CreateTable` return a table, with the filter enabled, let rows be offered to it, and let
  -- `Flush` write it to a file of fewer than 2 ^ 64 bytes. The numbers in the rows are words of 64
  -- bits and the lengths of the strings below 2 ^ 64, and `make` has room for the accepted rows, of
  -- 16 bytes each, and for those of the answer, of 24 bytes each. The float64 operations of the
  -- filter are assumed to be as `IsIeee` says. Then `parseSegment` accepts the file. Where the
  -- WHERE clause, if there is one, is evaluated without an error, `SELECT *` answers with exactly
  -- the accepted rows that meet the clause, in their order.
  pub select_star-flush :
      (fo : FloatOps) (q : Query) (u : Segment) (selection : Option (List Bool))
      → q.projection ≡ ProjectionKind.star
      → select_rows fo (file_segment (insert_all t offered)) q.filter ≡ ok (u, selection)
      → 24 * length (matching (meets_filter fo s q.filter) (accepted_of t offered)) ≤ max_alloc
      → (v : Segment) × (parse_segment file ≡ ok (file_segment (insert_all t offered)))
        × (execute fo (file_segment (insert_all t offered)) q
            ≡ ok (
              v,
              record {
                columns = map (λ (c : Column). c.name) s.columns;
                rows = matching (meets_filter fo s q.filter) (accepted_of t offered);
                is_aggregate = false;
              },
            ))
  select_star-flush fo q u selection star selected fits =
      let (parsed, stores, filled, schema, sizes) = session_stored in
      let (v, made) =
        execute_star fo (file_segment (insert_all t offered)) u (accepted_of t offered) q selection
          filled stores
          (subst
            (λ (w : Schema). All (λ row. length row ≡ length w.columns) (accepted_of t offered))
            (sym schema) sizes)
          star selected
          (subst
            (λ (w : Schema).
              24 * length (matching (meets_filter fo w q.filter) (accepted_of t offered))
              ≤ max_alloc)
            (sym schema) fits) in
      (
        v,
        parsed,
        made
            ∙ ap
                (λ (w : Schema). ok (
                  v,
                  record {
                    columns = map (λ (c : Column). c.name) w.columns;
                    rows = matching (meets_filter fo w q.filter) (accepted_of t offered);
                    is_aggregate = false;
                  },
                ))
                schema,
      )

  -- Let `CreateTable` return a table, with the filter enabled, let rows be offered to it, and let
  -- `Flush` write it to a file of fewer than 2 ^ 64 bytes. The numbers in the rows are words of 64
  -- bits and the lengths of the strings below 2 ^ 64, and `make` has room for the accepted rows, of
  -- 16 bytes each, and for those of the answer, of 24 bytes each. The float64 operations of the
  -- filter are assumed to be as `IsIeee` says. Then `parseSegment` accepts the file. Where the
  -- WHERE clause, if there is one, is evaluated without an error, a `SELECT` of named columns,
  -- which stand at the positions `ks` of the schema, answers with the cells at those positions of
  -- the accepted rows that meet the clause, in their order.
  pub select_columns-flush :
      (fo : FloatOps) (q : Query) (ks : List ℕ) (u : Segment) (selection : Option (List Bool))
      → q.projection ≡ ProjectionKind.columns
      → Located s.columns q.columns ks
      → select_rows fo (file_segment (insert_all t offered)) q.filter ≡ ok (u, selection)
      → 24 * length (matching (meets_filter fo s q.filter) (accepted_of t offered)) ≤ max_alloc
      → (v : Segment) × (parse_segment file ≡ ok (file_segment (insert_all t offered)))
        × (execute fo (file_segment (insert_all t offered)) q
            ≡ ok (
              v,
              projected q.columns ks
                  (matching (meets_filter fo s q.filter) (accepted_of t offered)),
            ))
  select_columns-flush fo q ks u selection is at selected fits =
      let (parsed, stores, filled, schema, sizes) = session_stored in
      let (v, made) =
        execute_columns fo (file_segment (insert_all t offered)) u (accepted_of t offered) q ks
          selection filled stores is
          (subst (λ (w : Schema). Located w.columns q.columns ks) (sym schema) at) selected
          (subst
            (λ (w : Schema).
              24 * length (matching (meets_filter fo w q.filter) (accepted_of t offered))
              ≤ max_alloc)
            (sym schema) fits) in
      (
        v,
        parsed,
        made
            ∙ ap
                (λ (w : Schema). ok (
                  v,
                  projected q.columns ks
                      (matching (meets_filter fo w q.filter) (accepted_of t offered)),
                ))
                schema,
      )

  -- Let `CreateTable` return a table, with the filter enabled, let rows be offered to it, and let
  -- `Flush` write it to a file of fewer than 2 ^ 64 bytes. The numbers in the rows are words of 64
  -- bits and the lengths of the strings below 2 ^ 64, and `make` has room for the accepted rows.
  -- The float64 operations of the filter are assumed to be as `IsIeee` says. Then `parseSegment`
  -- accepts the file. Where the WHERE clause, if there is one, is evaluated without an error,
  -- `COUNT(*)` answers with the number of the accepted rows that meet the clause.
  pub count_star-flush :
      (fo : FloatOps) (q : Query) (u : Segment) (selection : Option (List Bool))
      → q.projection ≡ ProjectionKind.count_star
      → select_rows fo (file_segment (insert_all t offered)) q.filter ≡ ok (u, selection)
      → (parse_segment file ≡ ok (file_segment (insert_all t offered)))
        × (execute fo (file_segment (insert_all t offered)) q
            ≡ ok (
              u,
              count_answer (length (matching (meets_filter fo s q.filter) (accepted_of t offered))),
            ))
  count_star-flush fo q u selection is selected =
      let (parsed, stores, filled, schema, sizes) = session_stored in
      (
        parsed,
        execute_count_star fo (file_segment (insert_all t offered)) u (accepted_of t offered) q
              selection filled stores is selected
            ∙ ap
                (λ (w : Schema). ok (
                  u,
                  count_answer
                      (length (matching (meets_filter fo w q.filter) (accepted_of t offered))),
                ))
                schema,
      )

-- ===== src/Command/Queries/Stored.antt =====
-- What the command `query` prints of the file of a session.
use uniqcol.Common.{
  All, Bool, Bytes, List, Option, [], arith, bytes_eq, false, length, length-map, map, ok, refl,
  some, subst, sym, ◌*◌, ◌++◌, ◌==◌, ◌∷◌, ◌≡◌, ◌≤◌,
}
use uniqcol.Command.Queries.{
  Layout, Output, QueryFlags, name_csv, open_segment, one_argument, render, render_csv, run_query,
  text,
}
use uniqcol.Command.Queries.Csv.{csv_lines, render_csv_lem}
use uniqcol.Binary.{IsU64}
use uniqcol.Bloom.Sizing.{Floats}
use uniqcol.Bloom.Sizing.Laws.{IsIeee}
use uniqcol.Query.{Answer, FloatOps, Query, ProjectionKind}
use uniqcol.Query.Execute.{execute, select_rows}
use uniqcol.Query.Execute.Filtered.{meets_filter}
use uniqcol.Query.Execute.Projected.{matching}
use uniqcol.Query.Execute.Sessions.{file_segment, select_star-flush, session_stored}
use uniqcol.Query.Execute.Star.{All-matching}
use uniqcol.Query.Parser.{parse}
use uniqcol.Query.Parser.Where.{Literals}
use uniqcol.Storage.Codec.{max_alloc}
use uniqcol.Storage.Segment.{Segment}
use uniqcol.Storage.Segment.Columns.{Encodable}
use uniqcol.Storage.Segment.Parse.{parse_segment}
use uniqcol.Storage.Table.{Table, TableOptions, create_table}
use uniqcol.Storage.Table.Files.{flush}
use uniqcol.Storage.Table.History.{insert_all, accepted_of}
use uniqcol.Storage.Types.{Column, Row, Schema}

run_query_csv :
    (lit : Literals) (fo : FloatOps) (lay : Layout) (files : Bytes → Option Bytes)
    (flags : QueryFlags) (sql file : Bytes) (seg v : Segment) (q : Query) (r : Answer)
    (out : List Output)
    → 1 ≤ length flags.db
    → flags.args ≡ sql ∷ []
    → flags.format ≡ name_csv
    → files flags.db ≡ some file
    → parse_segment file ≡ ok seg
    → parse lit sql ≡ ok q
    → execute fo seg q ≡ ok (v, r)
    → render_csv lay r ≡ ok out
    → run_query lit fo lay files (some flags) ≡ ok out
unfolding run_query one_argument open_segment render bytes_eq
run_query_csv lit fo lay files flags sql file seg v q r out named args csv there parsed is_query
      made printed =
    let some_name : (length flags.db == 0) ≡ false = ground arith in
    rw (some_name, args, csv, there, parsed, is_query, made, printed) refl

module _ (fl : Floats) (ieee : IsIeee fl) (s : Schema) (opts : TableOptions fl.Float) (t : Table)
    (offered : List Row) (file : Bytes) (enabled : opts.bloom_disabled ≡ false)
    (created : create_table fl s opts ≡ ok t) (flushing : flush (insert_all t offered) ≡ ok file)
    (small : IsU64 (length file)) (room : 16 * length (accepted_of t offered) ≤ max_alloc)
    (fit : All (All Encodable) offered) where
  pub run_query-flush :
      (fo : FloatOps) (lit : Literals) (lay : Layout) (files : Bytes → Option Bytes)
      (flags : QueryFlags) (sql : Bytes) (q : Query) (u : Segment) (selection : Option (List Bool))
      → 1 ≤ length flags.db
      → flags.args ≡ sql ∷ []
      → flags.format ≡ name_csv
      → files flags.db ≡ some file
      → parse lit sql ≡ ok q
      → q.projection ≡ ProjectionKind.star
      → select_rows fo (file_segment (insert_all t offered)) q.filter ≡ ok (u, selection)
      → 24 * length (matching (meets_filter fo s q.filter) (accepted_of t offered)) ≤ max_alloc
      → run_query lit fo lay files (some flags)
        ≡ ok (
            text (
              lay.csv_record (map (λ (c : Column). c.name) s.columns)
              ++ csv_lines lay (matching (meets_filter fo s q.filter) (accepted_of t offered)))
            ∷ [])
  run_query-flush fo lit lay files flags sql q u selection named args csv there is_query star
        selected fits =
      let test = meets_filter fo s q.filter in
      let (v, parsed, made) =
        select_star-flush fl ieee s opts t offered file enabled created flushing small room fit fo q
          u selection star selected fits in
      let (_, _, _, _, sizes) =
        session_stored fl ieee s opts t offered file enabled created flushing small room fit in
      let wide =
        All-matching (λ row. length row ≡ length (map (λ (c : Column). c.name) s.columns)) test
          (accepted_of t offered)
          (subst (λ n. All (λ row. length row ≡ n) (accepted_of t offered))
            (sym (length-map (λ (c : Column). c.name) s.columns)) sizes) in
      run_query_csv lit fo lay files flags sql file (file_segment (insert_all t offered)) v q _ _
        named args csv there parsed is_query made (render_csv_lem lay _ wide)

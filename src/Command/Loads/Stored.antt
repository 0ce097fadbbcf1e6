-- ===== src/Command/Loads/Stored.antt =====
-- The file that the command `load` writes.
use uniqcol.Common.{
  >>=-eq-ok, Bytes, List, Option, Option-cases, [], ap, fail_if-eq-ok, inl, inr, map_err,
  map_err-eq-ok, none, not, ok, ok-injective, refl, some, sym, ◌∙◌, ◌∷◌, ◌≡◌,
}
use uniqcol.Query.Aggregate.{skipped}
use uniqcol.Load.{
  Fields, Progress, csv_fields, load_record, load_records, load_schema, parse_record,
}
use uniqcol.Command.Loads.{
  CsvFile, FileSystem, LoadFlags, Loaded, finish_load, missing_flag, not_flushed, options_of,
  run_load_command,
}
use uniqcol.Bloom.Rate.{Powers}
use uniqcol.Bloom.Sizing.{Floats}
use uniqcol.Storage.Table.{Table, insert, create_table}
use uniqcol.Storage.Table.Files.{flush}
use uniqcol.Query.Parser.Where.{Literals}
use uniqcol.Storage.Table.History.{insert_all}
use uniqcol.Storage.Types.{Row, Schema}

-- The rows of the records that are no parse errors.
unfoldable pub parsed_rows : Literals → Fields → List (Option (List Bytes)) → List Row
unfolding parse_record
parsed_rows lit fields [] = []
parsed_rows lit fields (none ∷ recs) = parsed_rows lit fields recs
parsed_rows lit fields (some rec ∷ recs) = elim (parse_record lit fields rec) [
  | none ↦ parsed_rows lit fields recs
  | some row ↦ row ∷ parsed_rows lit fields recs
]

-- One record.
load_record_row :
    (lit : Literals) (fields : Fields) (rec : List Bytes) (recs : List (Option (List Bytes)))
    (p : Progress) (row : Row)
    → parse_record lit fields rec ≡ some row
    → ((load_record lit fields (some rec) p).table ≡ (insert p.table row).0)
      × (parsed_rows lit fields (some rec ∷ recs) ≡ row ∷ parsed_rows lit fields recs)
unfolding load_record parsed_rows
load_record_row lit fields rec recs p row good =
    (rw (load_record, good) refl, rw (parsed_rows, good) refl)

load_record_bad :
    (lit : Literals) (fields : Fields) (rec : List Bytes) (recs : List (Option (List Bytes)))
    (p : Progress)
    → parse_record lit fields rec ≡ none
    → ((load_record lit fields (some rec) p).table ≡ p.table)
      × (parsed_rows lit fields (some rec ∷ recs) ≡ parsed_rows lit fields recs)
unfolding load_record parsed_rows
load_record_bad lit fields rec recs p bad = (rw (load_record, bad) refl, rw (parsed_rows, bad) refl)

-- The table after the loop is that of the rows, offered one after the other.
table-load_records :
    (lit : Literals) (fields : Fields) (recs : List (Option (List Bytes))) (p : Progress)
    → (load_records lit fields recs p).table ≡ insert_all p.table (parsed_rows lit fields recs)
unfolding load_records load_record insert_all parsed_rows
table-load_records lit fields [] p = refl
table-load_records lit fields (none ∷ recs) p =
    table-load_records lit fields recs (load_record lit fields none p)
table-load_records lit fields (some rec ∷ recs) p =
    elim (Option-cases (parse_record lit fields rec)) [
      | inl bad ↦
          let (same, skipped) = load_record_bad lit fields rec recs p bad in
          table-load_records lit fields recs (load_record lit fields (some rec) p)
          ∙ ap (λ u. insert_all u (parsed_rows lit fields recs)) same
          ∙ ap (insert_all p.table) (sym skipped)
      | inr (row, good) ↦
          let (after, first) = load_record_row lit fields rec recs p row good in
          table-load_records lit fields recs (load_record lit fields (some rec) p)
          ∙ ap (λ u. insert_all u (parsed_rows lit fields recs)) after
          ∙ ap (insert_all p.table) (sym first)
    ]

module _ (fl : Floats) (trim : Bytes → Bytes) (lit : Literals) (pw : Powers fl.Float)
    (files : FileSystem) (flags : LoadFlags fl.Float) where
  finish_load-file :
      (p : Progress) (done : Loaded fl.Float)
      → finish_load fl pw files flags p ≡ ok done
      → flush p.table ≡ ok done.file
  unfolding finish_load
  finish_load-file p done e =
      let (_, e₁) = fail_if-eq-ok (not (files.can_create flags.out)) _ _ e in
      let (file, flushed, e₂) = >>=-eq-ok (map_err not_flushed (flush p.table)) _ e₁ in
      let (_, e₃) = fail_if-eq-ok (not (files.can_close flags.out file)) _ _ e₂ in
      map_err-eq-ok not_flushed _ flushed
      ∙ ap (λ (d : Loaded fl.Float). ok d.file) (ok-injective e₃)

  -- The file of a load that succeeds is that of the table to which the rows were offered.
  pub run_load_command-flush :
      (s : Schema) (t : Table) (input : CsvFile) (header : List Bytes) (fields : Fields)
      (done : Loaded fl.Float)
      → load_schema trim flags.schema flags.pk ≡ ok s
      → create_table fl s (options_of fl flags) ≡ ok t
      → files.open_csv flags.csv ≡ some input
      → input.header ≡ some header
      → csv_fields trim header s.columns ≡ ok fields
      → run_load_command fl trim lit pw files (some flags) ≡ ok done
      → flush (insert_all t (parsed_rows lit fields input.records)) ≡ ok done.file
  unfolding run_load_command
  run_load_command-flush s t input header fields done is_schema is_table is_input is_header
        is_fields e =
      let start : Progress = record { table = t; rows_read = 0; parse_errors = 0; warnings = 0 } in
      let e' = rw (run_load_command, is_schema, is_table, is_input, is_header, is_fields) at e in
      let (_, e₁) =
        fail_if-eq-ok _ missing_flag
          (finish_load fl pw files flags (load_records lit fields input.records start)) e' in
      ap flush (sym (table-load_records lit fields input.records start))
      ∙ finish_load-file (load_records lit fields input.records start) done e₁

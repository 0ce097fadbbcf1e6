-- ===== src/Command/Queries.antt =====
-- cmd/uniqcol/query.go. A failure is an error, and what goes to standard output a value; the usage
-- text, the elapsed time and the texts of failures are left out.
pub mod Csv
pub mod Stored
use uniqcol.Common.{
  Bytes, List, Option, Result, [], bytes_eq, err, fail_if, false, if◌then◌else◌, length, ltb, map,
  map_err, none, not, ok, or_fail, panic, replicate, set, some, stuck, take, true, ℕ, ◌&&◌, ◌++◌,
  ◌+◌, ◌==◌, ◌>>=◌, ◌>>◌, ◌||◌, ◌∷◌,
}
use uniqcol.Command.Format.{Texts, comma_sep_int64}
use uniqcol.Query.{Answer, FloatOps, Query}
use uniqcol.Query.Aggregate.{is_positive}
use uniqcol.Query.Execute.{execute}
use uniqcol.Query.Lexer.{ParseError}
use uniqcol.Query.Parser.{parse}
use uniqcol.Query.Parser.Where.{Literals}
use uniqcol.Storage.Segment.{Segment}
use uniqcol.Storage.Segment.Parse.{parse_segment}
use uniqcol.Storage.Types.{Value}

-- Packages text/tabwriter and encoding/csv: the text of aligned cells, and of a record.
pub record Layout : Type 0 where
  pub texts : Texts
  pub tabulate : Bytes → Bytes
  pub csv_record : List Bytes → Bytes

unfoldable pub format_value : Texts → Value → Bytes
format_value tx (Value.int64 x) = tx.format_int x
format_value tx (Value.uint64 x) = tx.format_uint x
format_value tx (Value.float64 x) = tx.format_float x
format_value tx (Value.string s) = s
format_value tx v = tx.format_any v

-- Cells with a tab between them, and the end of the line.
unfoldable pub tab_line : List Bytes → Bytes
tab_line [] = b'\n' ∷ []
tab_line (c ∷ []) = c ++ b'\n' ∷ []
tab_line (c ∷ cs) = c ++ b'\t' ∷ tab_line cs

unfoldable pub tab_lines : Texts → List (List Value) → Bytes
unfolding tab_line format_value
tab_lines tx [] = []
tab_lines tx (row ∷ rows) = tab_line (map (format_value tx) row) ++ tab_lines tx rows

-- The rows that are printed; `limit` is an int by its bits.
unfoldable pub shown_rows : Answer → ℕ → ℕ
shown_rows r limit =
    if not r.is_aggregate && is_positive limit && ltb limit (length r.rows)
    then limit
    else length r.rows

-- What is printed: a text, and the footer with the rows shown and all rows.
pub data Output : Type 0 where
  text : Bytes → Output
  showing : Bytes → Bytes → Output

unfoldable pub render_table : Layout → Answer → ℕ → Result ⊥ (List Output)
unfolding tab_line tab_lines shown_rows comma_sep_int64
render_table lay r limit =
    let shown = shown_rows r limit in
    let grid =
      text (lay.tabulate (tab_line r.columns ++ tab_lines lay.texts (take shown r.rows))) in
    elim (not r.is_aggregate && ltb shown (length r.rows)) [
      | true ↦ (do
        few ← comma_sep_int64 lay.texts shown
        all ← comma_sep_int64 lay.texts (length r.rows)
        ok (grid ∷ showing few all ∷ []))
      | false ↦ ok (grid ∷ [])
    ]

-- The loop over a row: `rec[j]` is set, which panics past the columns. What is behind a shorter row
-- stays as the row before left it.
unfoldable pub fill_record : Texts → List Bytes → ℕ → List Value → Result ⊥ (List Bytes)
unfolding format_value
fill_record tx rec j [] = ok rec
fill_record tx rec j (v ∷ vs) = elim (ltb j (length rec)) [
  | true ↦ fill_record tx (set rec j (format_value tx v)) (j + 1) vs
  | false ↦ panic
]

unfoldable pub csv_rows : Layout → List Bytes → List (List Value) → Result ⊥ Bytes
unfolding fill_record
csv_rows lay rec [] = ok []
csv_rows lay rec (row ∷ rows) = do
  rec' ← fill_record lay.texts rec 0 row
  more ← csv_rows lay rec' rows
  ok (lay.csv_record rec' ++ more)

-- Standard output is assumed to take what is written.
unfoldable pub render_csv : Layout → Answer → Result ⊥ (List Output)
unfolding csv_rows
render_csv lay r = do
  lines ← csv_rows lay (replicate (length r.columns) []) r.rows
  ok (text (lay.csv_record r.columns ++ lines) ∷ [])

-- The flags that package flag made of the arguments, and the arguments behind them.
pub record QueryFlags : Type 0 where
  pub db : Bytes
  pub limit : ℕ
  pub format : Bytes
  pub args : List Bytes

pub data QueryFailure : Type 0 where
  flag_failure no_db not_one_argument unknown_format unreadable_file : QueryFailure
  bad_segment : uniqcol.Storage.Segment.Error → QueryFailure
  bad_query : ParseError → QueryFailure
  not_executed : uniqcol.Query.Error → QueryFailure

abbrev pub name_table : Bytes
name_table = b't' ∷ b'a' ∷ b'b' ∷ b'l' ∷ b'e' ∷ []

abbrev pub name_csv : Bytes
name_csv = b'c' ∷ b's' ∷ b'v' ∷ []

-- `OpenSegment`, on what `os.ReadFile` gives.
unfoldable pub open_segment : Option Bytes → Result QueryFailure Segment
open_segment none = err unreadable_file
open_segment (some file) = map_err bad_segment (parse_segment file)

-- The only argument.
unfoldable pub one_argument : List Bytes → Result QueryFailure Bytes
one_argument (sql ∷ []) = ok sql
one_argument _ = err not_one_argument

unfoldable pub render : Layout → QueryFlags → Answer → Result ⊥ (List Output)
unfolding render_csv render_table
render lay flags r = elim (bytes_eq flags.format name_csv) [
  | true ↦ render_csv lay r
  | false ↦ render_table lay r flags.limit
]

-- `none` is a failure of package flag; `files` is what `os.ReadFile` gives for a path.
unfoldable pub run_query :
    Literals
    → FloatOps
    → Layout
    → (Bytes → Option Bytes)
    → Option QueryFlags
    → Result QueryFailure (List Output)
unfolding open_segment one_argument render
run_query lit fl lay files parsed = do
  flags ← or_fail parsed flag_failure
  fail_if (length flags.db == 0) no_db
  sql ← one_argument flags.args
  fail_if (not (bytes_eq flags.format name_table || bytes_eq flags.format name_csv)) unknown_format
  seg ← open_segment (files flags.db)
  q ← map_err bad_query (parse lit sql)
  (seg', r) ← map_err not_executed (execute fl seg q)
  map_err (λ (no : ⊥). absurd no) (render lay flags r)

-- The exit code; a panic ends the process otherwise.
unfoldable pub exit_code {ℓ} : {A : Type ℓ} → Result QueryFailure A → Option ℕ
exit_code (ok a) = some 0
exit_code (err flag_failure) = some 2
exit_code (err _) = some 1
exit_code panic = none
exit_code stuck = none

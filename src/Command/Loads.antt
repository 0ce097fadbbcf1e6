-- ===== src/Command/Loads.antt =====
-- `runLoad` of cmd/uniqcol/load.go as a whole. A failure is an error; the file, the warnings and the
-- summary are a value. The wall time, the throughput and the texts are left out.
pub mod Stored
use uniqcol.Common.{
  Bool, Bytes, List, Option, Result, [], err, fail_if, if◌then◌else◌, length, ltb, map_err, none,
  not, ok, or_fail, some, ℕ, ◌&&◌, ◌++◌, ◌-◌, ◌==◌, ◌>>=◌, ◌>>◌, ◌||◌, ◌∷◌,
}
use uniqcol.Storage.Segment.{Segment}
use uniqcol.Bloom.Rate.{Powers, estimated_fpr}
use uniqcol.Bloom.Sizing.{Floats}
use uniqcol.Command.Format.{Texts, comma_sep_uint64, human_bytes}
use uniqcol.Load.{LoadError, Progress, create, csv_fields, load_records, load_schema}
use uniqcol.Query.Parser.Where.{Literals}
use uniqcol.Storage.Table.{Table, TableOptions, create_table}
use uniqcol.Storage.Table.Files.{flush}

-- The flags that package flag made of the arguments.
pub record LoadFlags {ℓ} (Float : Type ℓ) : Type ℓ where
  pub csv : Bytes
  pub out : Bytes
  pub pk : Bytes
  pub schema : Bytes
  pub expected_items : ℕ
  pub target_fpr : Float
  pub no_bloom : Bool

-- An open file, read by package csv: the first record and those behind it, `none` for an error.
pub record CsvFile : Type 0 where
  pub header : Option (List Bytes)
  pub records : List (Option (List Bytes))

-- Package os, by paths and contents: what `Open` gives, whether `Create` and `Close` succeed, and the
-- size that `Stat` gives.
pub record FileSystem : Type 0 where
  pub open_csv : Bytes → Option CsvFile
  pub can_create : Bytes → Bool
  pub can_close : Bytes → Bytes → Bool
  pub stat_size : Bytes → Bytes → Option ℕ

pub data LoadFailure : Type 0 where
  flags_error missing_flag no_csv no_header cannot_create cannot_close : LoadFailure
  refused : LoadError → LoadFailure
  not_flushed : uniqcol.Storage.Segment.Error → LoadFailure

pub data LoadWarning : Type 0 where
  small_filter_warning saturated_warning : LoadWarning
  suppressed_warning : ℕ → LoadWarning

pub record LoadSummary {ℓ} (Float : Type ℓ) : Type ℓ where
  pub rows_read : ℕ
  pub accepted : ℕ
  pub rejected : ℕ
  pub parse_errors : ℕ
  pub bloom_disabled : Bool
  pub fpr : Float
  pub segment_bytes : ℕ

-- The file that was written, the warnings but for those of rows, and the summary.
pub record Loaded {ℓ} (Float : Type ℓ) : Type ℓ where
  pub file : Bytes
  pub warnings : List LoadWarning
  pub summary : LoadSummary Float

module _ (fl : Floats) where
  unfoldable pub options_of : LoadFlags fl.Float → TableOptions fl.Float
  options_of flags = record {
    bloom_expected_items = flags.expected_items;
    bloom_target_fpr = flags.target_fpr;
    bloom_disabled = flags.no_bloom;
  }

  unfoldable pub early_warnings : LoadFlags fl.Float → List LoadWarning
  early_warnings flags =
      if not flags.no_bloom && ltb flags.expected_items 1000 then small_filter_warning ∷ [] else []

  unfoldable pub suppressed_warnings : Progress → List LoadWarning
  suppressed_warnings p =
      if ltb p.warnings p.parse_errors
      then suppressed_warning (p.parse_errors - p.warnings) ∷ []
      else []

  -- `estimatedFPR` of load.go.
  unfoldable pub table_fpr : Powers fl.Float → Table → fl.Float
  unfolding estimated_fpr
  table_fpr pw t = elim t.bloom [ none ↦ fl.of_uint64 0 | some f ↦ estimated_fpr fl pw f ]

  unfoldable pub late_warnings : Powers fl.Float → LoadFlags fl.Float → Table → List LoadWarning
  unfolding table_fpr
  late_warnings pw flags t =
      if not flags.no_bloom && fl.lt (fl.mul (fl.of_uint64 2) flags.target_fpr) (table_fpr pw t)
      then saturated_warning ∷ []
      else []

  -- Behind the last record.
  unfoldable pub finish_load :
      Powers fl.Float
      → FileSystem
      → LoadFlags fl.Float
      → Progress
      → Result LoadFailure (Loaded fl.Float)
  unfolding flush early_warnings suppressed_warnings late_warnings table_fpr
  finish_load pw files flags p = do
    fail_if (not (files.can_create flags.out)) cannot_create
    file ← map_err not_flushed (flush p.table)
    fail_if (not (files.can_close flags.out file)) cannot_close
    ok (record {
      file = file;
      warnings = early_warnings flags ++ (suppressed_warnings p ++ late_warnings pw flags p.table);
      summary = record {
        rows_read = p.rows_read;
        accepted = p.table.accepted;
        rejected = p.table.rejected;
        parse_errors = p.parse_errors;
        bloom_disabled = flags.no_bloom;
        fpr = table_fpr pw p.table;
        segment_bytes = elim (files.stat_size flags.out file) [ none ↦ 0 | some n ↦ n ];
      };
    })

  -- `none` is a failure of package flag.
  unfoldable pub run_load_command :
      (Bytes → Bytes)
      → Literals
      → Powers fl.Float
      → FileSystem
      → Option (LoadFlags fl.Float)
      → Result LoadFailure (Loaded fl.Float)
  unfolding options_of finish_load load_schema create_table csv_fields load_records
  run_load_command trim lit pw files parsed = do
    flags ← or_fail parsed flags_error
    fail_if
        (length flags.csv == 0
          || length flags.out == 0
          || length flags.pk == 0
          || length flags.schema == 0)
        missing_flag
    schema ← map_err LoadFailure.refused (load_schema trim flags.schema flags.pk)
    t ← map_err (λ e. LoadFailure.refused (create e)) (create_table fl schema (options_of flags))
    input ← or_fail (files.open_csv flags.csv) no_csv
    header ← or_fail input.header no_header
    fields ← map_err LoadFailure.refused (csv_fields trim header schema.columns)
    finish_load pw files flags (
        load_records lit fields input.records
          (record { table = t; rows_read = 0; parse_errors = 0; warnings = 0 }))

-- The exit code.
unfoldable pub load_exit_code {ℓ} : {A : Type ℓ} → Result LoadFailure A → Option ℕ
load_exit_code (ok a) = some 0
load_exit_code (err flags_error) = some 2
load_exit_code (err _) = some 1
load_exit_code _ = none

-- `printLoadSummary`: the rejected rows with their share of the rows read, when there is a filter.
pub record PrintedSummary {ℓ} (Float : Type ℓ) : Type ℓ where
  pub rows_read : Bytes
  pub accepted : Bytes
  pub rejected : Option (Bytes × Option Float)
  pub parse_errors : Bytes
  pub fpr : Option Float
  pub segment_size : Bytes

unfoldable pub rejected_share : (fl : Floats) → LoadSummary fl.Float → Option fl.Float
rejected_share fl s =
    if not s.bloom_disabled && ltb 0 s.rows_read
    then some
        (fl.div (fl.mul (fl.of_uint64 100) (fl.of_uint64 s.rejected)) (fl.of_uint64 s.rows_read))
    else none

unfoldable pub print_load_summary :
    (fl : Floats) → Texts → LoadSummary fl.Float → Result ⊥ (PrintedSummary fl.Float)
unfolding comma_sep_uint64 rejected_share human_bytes
print_load_summary fl tx s = do
  rejected ← comma_sep_uint64 tx s.rejected
  rows_read ← comma_sep_uint64 tx s.rows_read
  accepted ← comma_sep_uint64 tx s.accepted
  parse_errors ← comma_sep_uint64 tx s.parse_errors
  ok (record {
    rows_read = rows_read;
    accepted = accepted;
    rejected = if s.bloom_disabled then none else some (rejected, rejected_share fl s);
    parse_errors = parse_errors;
    fpr = if s.bloom_disabled then none else some s.fpr;
    segment_size = human_bytes tx s.segment_bytes;
  })

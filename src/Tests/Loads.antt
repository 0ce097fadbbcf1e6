-- ===== src/Tests/Loads.antt =====
-- A load of a few records.
use uniqcol.Common.{
  Bytes, List, Option, Result, [], false, none, ok, refl, some, true, ◌%◌, ◌+◌, ◌∷◌, ◌≡◌, ◌≤◌,
}
use uniqcol.Bloom.Filter.{u64_mod}
use uniqcol.Load.{Progress, load_schema, run_load, max_load_warnings}
use uniqcol.Load.Counts.{run_load-counts}
use uniqcol.Load.Spec.{load_schema-validate}
use uniqcol.Tests.Parses.{digits}
use uniqcol.Storage.Buffer.{new_write_buffer}
use uniqcol.Storage.Types.{ColumnType, Schema, validate, pk_index}
use uniqcol.Storage.Table.{TableOptions}
use uniqcol.Tests.Floating.{Fixed, fixed_point}

abbrev pub as_is : Bytes → Bytes
as_is text = text

-- k:int64,t:string
abbrev pub spec : Bytes
spec =
    b'k' ∷ b':' ∷ b'i' ∷ b'n' ∷ b't' ∷ b'6' ∷ b'4' ∷ b',' ∷ b't' ∷ b':' ∷ b's' ∷ b't' ∷ b'r' ∷ b'i'
    ∷ b'n' ∷ b'g' ∷ []

abbrev pub key : Bytes
key = b'k' ∷ []

abbrev pub text_column : Bytes
text_column = b't' ∷ []

abbrev pub schema : Schema
schema = record {
  pk = key;
  columns =
      record { name = key; type = ColumnType.int64 }
      ∷ record { name = text_column; type = ColumnType.string }
      ∷ [];
}

pub loaded_schema : load_schema as_is spec key ≡ ok schema
unfolding load_schema
loaded_schema = refl

load_schema-validate_example : validate schema ≡ ok tt
load_schema-validate_example = load_schema-validate as_is spec key schema loaded_schema

abbrev no_bloom : TableOptions Fixed
no_bloom = record {
  bloom_expected_items = 3;
  bloom_target_fpr = (false, 10);
  bloom_disabled = true;
}

-- A good record, one whose key is empty, one that the CSV reader refuses.
abbrev pub records : List (Option (List Bytes))
records = some ((b'x' ∷ []) ∷ (b'7' ∷ []) ∷ []) ∷ some ((b'x' ∷ []) ∷ [] ∷ []) ∷ none ∷ []

abbrev progress_of : Result uniqcol.Load.LoadError Progress → Progress
progress_of (ok p) = p
progress_of _ = record {
  table = record {
    schema = schema;
    buf = new_write_buffer schema;
    bloom = none;
    pk_idx = 0;
    pk_type = ColumnType.int64;
    accepted = 0;
    rejected = 0;
  };
  rows_read = 0;
  parse_errors = 0;
  warnings = 0;
}

abbrev final : Progress
final =
    progress_of
      (run_load as_is digits fixed_point no_bloom spec key (text_column ∷ key ∷ []) records)

loaded :
    run_load as_is digits fixed_point no_bloom spec key (text_column ∷ key ∷ []) records ≡ ok final
unfolding run_load validate pk_index
loaded = refl

run_load-counts_example :
    (final.rows_read ≡ 3 % u64_mod)
    × (final.rows_read
        ≡ (final.table.accepted + final.table.rejected + final.parse_errors) % u64_mod)
    × (final.warnings ≤ max_load_warnings)
run_load-counts_example =
    run_load-counts as_is digits fixed_point no_bloom spec key (text_column ∷ key ∷ []) records
      final loaded

-- ===== src/Tests/Commands.antt =====
-- A CSV file of one good record, loaded and queried.
use uniqcol.Common.{
  All, Bytes, List, Result, [], arith, false, length, none, ok, some, true, ◌++◌, ◌+◌, ◌∷◌, ◌≡◌,
  ◌≤◌,
}
use uniqcol.Command.Format.{comma_sep_uint64}
use uniqcol.Command.Format.Commas.{comma_joined, comma_sep_uint64_lem, joined}
use uniqcol.Tests.Loads.{as_is, spec, key, schema, records, text_column}
use uniqcol.Tests.Floating.{Fixed, fixed_point}
use uniqcol.Tests.Tables.{new_table}
use uniqcol.Tests.Parses.{digits}
use uniqcol.Bloom.Rate.{Powers}
use uniqcol.Command.Format.{Texts}
use uniqcol.Command.Loads.{CsvFile, FileSystem, LoadFailure, LoadFlags, Loaded, run_load_command}
use uniqcol.Command.Queries.{Layout, QueryFlags, name_csv, text}
use uniqcol.Load.{Fields}
use uniqcol.Query.{Query, ProjectionKind, AggregateKind}
use uniqcol.Storage.Buffer.{new_write_buffer}
use uniqcol.Storage.Table.{Table}
use uniqcol.Storage.Types.{ColumnType, Row, Value}

abbrev path : Bytes
path = b'f' ∷ []

abbrev input : CsvFile
input = record { header = some (text_column ∷ key ∷ []); records = records }

abbrev disk : FileSystem
disk = record {
  open_csv = λ p. some input;
  can_create = λ p. true;
  can_close = λ p out. true;
  stat_size = λ p out. none;
}

abbrev powers : Powers Fixed
powers = record { sub = λ x y. x; exp = λ x. x; pow = λ x y. x }

abbrev loading : LoadFlags Fixed
loading = record {
  csv = path;
  out = path;
  pk = key;
  schema = spec;
  expected_items = 3;
  target_fpr = (false, 10);
  no_bloom = false;
}

abbrev start : Table
start = record new_table { schema = schema; buf = new_write_buffer schema; pk_idx = 0 }

abbrev fields : Fields
fields =
    (record { name = key; type = ColumnType.int64 }, 1)
    ∷ (record { name = text_column; type = ColumnType.string }, 0)
    ∷ []

abbrev row : Row
row = Value.int64 7 ∷ Value.string (b'x' ∷ []) ∷ []

abbrev done_of : Result LoadFailure (Loaded Fixed) → Loaded Fixed
done_of (ok d) = d
done_of _ = record {
  file = [];
  warnings = [];
  summary = record {
    rows_read = 0;
    accepted = 0;
    rejected = 0;
    parse_errors = 0;
    bloom_disabled = false;
    fpr = (false, 0);
    segment_bytes = 0;
  };
}

abbrev done : Loaded Fixed
done = done_of (run_load_command fixed_point as_is digits powers disk (some loading))

-- select *
abbrev sql : Bytes
sql = b's' ∷ b'e' ∷ b'l' ∷ b'e' ∷ b'c' ∷ b't' ∷ b' ' ∷ b'*' ∷ []

abbrev everything : Query
everything = record {
  projection = ProjectionKind.star;
  columns = [];
  sum_column = [];
  group_by = [];
  group_agg = AggregateKind.count_star;
  filter = none;
}

abbrev asking : QueryFlags
asking = record { db = path; limit = 100; format = name_csv; args = sql ∷ [] }

abbrev plain : Layout
plain = record {
  texts = record {
    format_uint = λ n. (b'0' + n) ∷ [];
    format_int = λ n. (b'0' + n) ∷ [];
    format_float = λ n. [];
    one_decimal = λ n d. [];
    format_any = λ v. [];
  };
  tabulate = λ text. text;
  csv_record = λ cells. elim cells [ [] ↦ [] | c ∷ cs ↦ c ];
}

-- 1234567
abbrev million : Texts
million = record plain.texts {
  format_uint = λ n. b'1' ∷ b'2' ∷ b'3' ∷ b'4' ∷ b'5' ∷ b'6' ∷ b'7' ∷ [];
}

comma_sep_uint64_lem_example :
    (head : Bytes) × (gs : List Bytes) × (comma_sep_uint64 million 1234567
      ≡ ok (head ++ comma_joined gs))
    × (million.format_uint 1234567 ≡ head ++ joined gs)
    × (1 ≤ length head)
    × (length head ≤ 3)
    × All (λ g. length g ≡ 3) gs
comma_sep_uint64_lem_example = comma_sep_uint64_lem million 1234567 (omega arith)

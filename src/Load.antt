-- ===== src/Load.antt =====
-- cmd/uniqcol/load.go: what `uniqcol load` does with a schema and with the records of a CSV file. The
-- texts of the messages are left out.
pub mod Spec
pub mod Counts
use uniqcol.Common.{
  Bool, Bytes, List, Option, Result, [], bytes_eq, fail_if, false, get_elem?, if◌then◌else◌, leb,
  length, map_err, none, not, ok, or_fail, some, ℕ, ◌%◌, ◌++◌, ◌+◌, ◌==◌, ◌>>=◌, ◌>>◌, ◌||◌, ◌∷◌,
}
use mathlib.Core.Option.{map as map_option}
use uniqcol.Storage.Types.{ColumnType, Column, Schema, Value, Row, seen_name}
use uniqcol.Storage.Table.{Table, TableOptions, CreateError, create_table, insert}
use uniqcol.Bloom.Sizing.{Floats}
use uniqcol.Bloom.Filter.{u64_mod}
use uniqcol.Query.Parser.Where.{Literals}

-- The item that is wrong is left out.
pub data LoadError : Type 0 where
  empty_schema no_type empty_name duplicate_name unknown_type pk_missing column_missing : LoadError
  create : CreateError → LoadError

-- `strings.Split(spec, ",")`: one part at least.
unfoldable pub split_comma : Bytes → Bytes → List Bytes
split_comma part [] = part ∷ []
split_comma part (c ∷ cs) =
    if c == b',' then part ∷ split_comma [] cs else split_comma (part ++ c ∷ []) cs

-- `strings.SplitN(p, ":", 2)`, when it gives two parts.
unfoldable pub cut_colon : Bytes → Bytes → Option (Bytes × Bytes)
cut_colon before [] = none
cut_colon before (c ∷ cs) = if c == b':' then some (before, cs) else cut_colon (before ++ c ∷ []) cs

abbrev pub name_int64 : Bytes
name_int64 = b'i' ∷ b'n' ∷ b't' ∷ b'6' ∷ b'4' ∷ []

abbrev pub name_float64 : Bytes
name_float64 = b'f' ∷ b'l' ∷ b'o' ∷ b'a' ∷ b't' ∷ b'6' ∷ b'4' ∷ []

abbrev pub name_string : Bytes
name_string = b's' ∷ b't' ∷ b'r' ∷ b'i' ∷ b'n' ∷ b'g' ∷ []

unfoldable pub type_named : Bytes → Option ColumnType
unfolding bytes_eq
type_named text =
    if bytes_eq text name_int64
    then some ColumnType.int64
    else if bytes_eq text name_float64
    then some ColumnType.float64
    else if bytes_eq text name_string
    then some ColumnType.string
    else none

-- One item, with the names before it; `trim` is `strings.TrimSpace`.
unfoldable pub parse_item : (Bytes → Bytes) → List Bytes → Bytes → Result LoadError Column
unfolding cut_colon type_named seen_name
parse_item trim seen part = do
  (before, after) ← or_fail (cut_colon [] (trim part)) no_type
  fail_if (length (trim before) == 0) empty_name
  fail_if (seen_name (trim before) seen) duplicate_name
  t ← or_fail (type_named (trim after)) LoadError.unknown_type
  ok (record { name = trim before; type = t })

unfoldable pub parse_items :
    (Bytes → Bytes) → List Bytes → List Bytes → Result LoadError (List Column)
unfolding parse_item
parse_items trim seen [] = ok []
parse_items trim seen (part ∷ parts) = do
  c ← parse_item trim seen part
  cs ← parse_items trim (c.name ∷ seen) parts
  ok (c ∷ cs)

unfoldable pub parse_schema_spec : (Bytes → Bytes) → Bytes → Result LoadError (List Column)
unfolding split_comma parse_items
parse_schema_spec trim spec = do
  fail_if (length spec == 0) empty_schema
  parse_items trim [] (split_comma [] spec)

-- `pkFound`
unfoldable pub has_column : Bytes → List Column → Bool
unfolding bytes_eq
has_column name [] = false
has_column name (c ∷ cs) = bytes_eq c.name name || has_column name cs

unfoldable pub load_schema : (Bytes → Bytes) → Bytes → Bytes → Result LoadError Schema
unfolding parse_schema_spec has_column
load_schema trim spec pk = do
  cols ← parse_schema_spec trim spec
  fail_if (not (has_column pk cols)) pk_missing
  ok (record { pk = pk; columns = cols })

-- The map of the header: the last column of a name.
unfoldable pub header_index : (Bytes → Bytes) → Bytes → ℕ → List Bytes → Option ℕ
unfolding bytes_eq
header_index trim name i [] = none
header_index trim name i (h ∷ hs) = elim (header_index trim name (i + 1) hs) [
  | some j ↦ some j
  | none ↦ if bytes_eq (trim h) name then some i else none
]

-- `csvIdx`, beside the columns.
abbrev pub Fields : Type 0
Fields = List (Column × ℕ)

unfoldable pub csv_fields : (Bytes → Bytes) → List Bytes → List Column → Result LoadError Fields
unfolding header_index
csv_fields trim header [] = ok []
csv_fields trim header (c ∷ cs) = do
  j ← or_fail (header_index trim c.name 0 header) column_missing
  fields ← csv_fields trim header cs
  ok ((c, j) ∷ fields)

-- `none` is a parse error; the field of a number may not be empty.
unfoldable pub parse_field_by_type : Literals → Bytes → ColumnType → Option Value
parse_field_by_type lit [] ColumnType.string = some (Value.string [])
parse_field_by_type lit [] t = none
parse_field_by_type lit (b ∷ bs) ColumnType.int64 = map_option Value.int64 (lit.parse_int (b ∷ bs))
parse_field_by_type lit (b ∷ bs) ColumnType.float64 =
    map_option Value.float64 (lit.parse_float (b ∷ bs))
parse_field_by_type lit (b ∷ bs) ColumnType.string = some (Value.string (b ∷ bs))
parse_field_by_type lit (b ∷ bs) (ColumnType.unknown u) = none

-- The row of a record, unless a field is missing or is no value.
unfoldable pub parse_record : Literals → Fields → List Bytes → Option Row
unfolding parse_field_by_type
parse_record lit [] rec = some []
parse_record lit ((c, j) ∷ fields) rec = elim (get_elem? rec j) [
  | none ↦ none
  | some field ↦ elim (parse_field_by_type lit field c.type) [
    | none ↦ none
    | some v ↦ map_option (◌∷◌ v) (parse_record lit fields rec)
  ]
]

-- The loop's variables.
pub record Progress : Type 0 where
  pub table : Table
  pub rows_read : ℕ
  pub parse_errors : ℕ
  pub warnings : ℕ

abbrev pub max_load_warnings : ℕ
max_load_warnings = 10

-- `emitWarning`, on its counter.
unfoldable pub emit_warning : ℕ → ℕ
emit_warning count = if leb max_load_warnings count then count else count + 1

abbrev pub next_row : Progress → Progress
next_row p = record p { rows_read = (p.rows_read + 1) % u64_mod }

abbrev pub bad_record : Progress → Progress
bad_record p = record p {
  parse_errors = (p.parse_errors + 1) % u64_mod;
  warnings = emit_warning p.warnings;
}

-- One round: `none` is an error of the CSV reader.
unfoldable pub load_record : Literals → Fields → Option (List Bytes) → Progress → Progress
unfolding parse_record emit_warning insert
load_record lit fields none p = bad_record (next_row p)
load_record lit fields (some rec) p = elim (parse_record lit fields rec) [
  | none ↦ bad_record (next_row p)
  | some row ↦ record (next_row p) { table = (insert p.table row).0 }
]

unfoldable pub load_records : Literals → Fields → List (Option (List Bytes)) → Progress → Progress
unfolding load_record
load_records lit fields [] p = p
load_records lit fields (rec ∷ recs) p = load_records lit fields recs (load_record lit fields rec p)

-- `runLoad` between the flags and the output file: `header` is the first record.
unfoldable pub run_load :
    (Bytes → Bytes)
    → Literals
    → (fl : Floats) → TableOptions fl.Float
    → Bytes
    → Bytes
    → List Bytes
    → List (Option (List Bytes))
    → Result LoadError Progress
unfolding load_schema create_table csv_fields load_records
run_load trim lit fl opts spec pk header recs = do
  schema ← load_schema trim spec pk
  t ← map_err create (create_table fl schema opts)
  fields ← csv_fields trim header schema.columns
  ok (
      load_records lit fields recs
        (record { table = t; rows_read = 0; parse_errors = 0; warnings = 0 }))

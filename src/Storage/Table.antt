-- ===== src/Storage/Table.antt =====
-- storage/table.go. The functions that change the table return the new one; the counters are uint64.
pub mod Insert
pub mod History
pub mod Sessions
pub mod Files
use uniqcol.Common.{
  Bool, Bytes, Option, Result, false, get_elem?, get_or, if◌then◌else◌, inl, inr, length, map_err,
  none, not, ok, panic, some, true, ℕ, ◌%◌, ◌+◌, ◌==◌, ◌>>=◌, ◌>>◌, ◌⊎◌,
}
use uniqcol.Storage.Types.{ColumnType, Schema, Value, Row, SchemaError, validate, pk_index}
use uniqcol.Storage.Buffer.{WriteBuffer, AppendError, new_write_buffer, append, len}
use uniqcol.Bloom.Sizing.{Floats, new}
use uniqcol.Bloom.Filter.{Filter, u64_mod, add, contains}
use uniqcol.Binary.{put_uint_le}

pub record TableOptions {ℓ} (Float : Type ℓ) : Type ℓ where
  pub bloom_expected_items : ℕ
  pub bloom_target_fpr : Float
  pub bloom_disabled : Bool

pub data PkError : Type 0 where
  wrong_type unsupported_type : PkError

-- Why a row was rejected. A duplicate is one that the Bloom filter reports.
pub data Reason : Type 0 where
  row_length duplicate : Reason
  pk_type : PkError → Reason
  bad_row : AppendError → Reason

-- `reason` is `none` for the empty text.
pub record InsertResult : Type 0 where
  pub accepted : Bool
  pub reason : Option Reason

pub record TableStats : Type 0 where
  pub accepted : ℕ
  pub rejected : ℕ
  pub buffer_len : ℕ

pub record Table : Type 0 where
  pub schema : Schema
  pub buf : WriteBuffer
  pub bloom : Option Filter
  pub pk_idx : ℕ
  pub pk_type : ColumnType
  pub accepted : ℕ
  pub rejected : ℕ

pub data CreateError : Type 0 where
  schema : SchemaError → CreateError
  bloom : uniqcol.Bloom.Sizing.Error → CreateError

-- The canonical bytes of a key.
unfoldable pub pk_bytes : Value → ColumnType → PkError ⊎ Bytes
unfolding put_uint_le
pk_bytes (Value.int64 x) ColumnType.int64 = inr (put_uint_le 8 x)
pk_bytes (Value.float64 x) ColumnType.float64 = inr (put_uint_le 8 x)
pk_bytes (Value.string s) ColumnType.string = inr s
pk_bytes v (ColumnType.unknown u) = inl unsupported_type
pk_bytes v _ = inl wrong_type

-- `schema.Columns[pkIdx]` panics at -1, which `Validate` rules out.
unfoldable pub table_at : Schema → Option Filter → Option ℕ → Result CreateError Table
table_at s f none = panic
table_at s f (some i) = elim (get_elem? s.columns i) [
  | none ↦ panic
  | some c ↦ ok (record {
    schema = s;
    buf = new_write_buffer s;
    bloom = f;
    pk_idx = i;
    pk_type = c.type;
    accepted = 0;
    rejected = 0;
  })
]

-- `if !opts.BloomDisabled { bf, err = bloom.New(...) }`
unfoldable pub create_bloom :
    (fl : Floats) → TableOptions fl.Float → Bool → Result CreateError (Option Filter)
create_bloom fl opts true = ok none
create_bloom fl opts false = do
  f ← map_err CreateError.bloom (new fl opts.bloom_expected_items opts.bloom_target_fpr)
  ok (some f)

unfoldable pub create_table :
    (fl : Floats) → Schema → TableOptions fl.Float → Result CreateError Table
unfolding create_bloom table_at
create_table fl s opts = do
  map_err CreateError.schema (validate s)
  f ← create_bloom fl opts opts.bloom_disabled
  table_at s f (pk_index s)

abbrev pub reject : Table → Reason → Table × InsertResult
reject t why = (
  record t { rejected = (t.rejected + 1) % u64_mod },
  record { accepted = false; reason = some why },
)

abbrev pub accept : Table → WriteBuffer → Option Filter → Table × InsertResult
accept t b f = (
  record t { buf = b; bloom = f; accepted = (t.accepted + 1) % u64_mod },
  record { accepted = true; reason = none },
)

-- With the filter `f` and the key's bytes.
unfoldable pub insert_key : Table → Row → Filter → Bytes → Table × InsertResult
insert_key t row f key = if contains f key then reject t duplicate else elim (append t.buf row) [
  | inl e ↦ reject t (bad_row e)
  | inr b ↦ accept t b (some (add f key))
]

-- Behind the check of the length, with and without a filter.
unfoldable pub insert_sized : Table → Row → Option Filter → Table × InsertResult
unfolding insert_key
insert_sized t row none = elim (append t.buf row) [
  | inl e ↦ reject t (bad_row e)
  | inr b ↦ accept t b none
]
insert_sized t row (some f) = elim (pk_bytes (get_or row t.pk_idx Value.nil) t.pk_type) [
  | inl e ↦ reject t (Reason.pk_type e)
  | inr key ↦ insert_key t row f key
]

-- `row[t.pkIdx]` is in range, since the row has a value for each column.
unfoldable pub insert : Table → Row → Table × InsertResult
unfolding insert_sized
insert t row =
    if not (length row == length t.schema.columns)
    then reject t Reason.row_length
    else insert_sized t row t.bloom

unfoldable pub stats : Table → TableStats
stats t = record { accepted = t.accepted; rejected = t.rejected; buffer_len = len t.buf }

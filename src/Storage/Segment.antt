-- ===== src/Storage/Segment.antt =====
-- storage/segment.go: the segment file. A file is the list of its bytes, `data[offset:]` the list
-- that is left, and a column block holds its payload itself instead of the offset and the length.
pub mod Write
pub mod Parse
pub mod Read
pub mod RoundTrip
pub mod Columns
pub mod ReadBack
pub mod Caching
pub mod Stored
pub mod Header
use uniqcol.Common.{
  Bool, Bytes, List, Option, [], bit_and, bytes_eq, if◌then◌else◌, none, not, some, ℕ, ◌==◌, ◌∷◌,
}
use uniqcol.Storage.Types.{ColumnType, Schema}
use uniqcol.Bloom.Filter.{Filter}

-- The part of the file that was cut off.
pub data Part : Type 0 where
  header flags_len flags_bytes pk_name_len pk_name column_name_len column_name tags : Part
  payload_len payload bloom_header : Part

pub data Error : Type 0 where
  too_many_columns bad_magic flags_len_zero bad_bloom_magic : Error
  unknown_type : Bytes → Error
  unknown_column : Bytes → Error
  unsupported_version unknown_wire_type unknown_encoding unsupported_bloom_version : ℕ → Error
  truncated : Part → Error
  bloom : uniqcol.Bloom.Wire.Error → Error
  decode : uniqcol.Storage.Codec.Error → Error

pub data Encoding : Type 0 where
  raw rle : Encoding

abbrev pub magic : Bytes
magic = b'U' ∷ b'C' ∷ b'O' ∷ b'L' ∷ []

abbrev pub bloom_magic : Bytes
bloom_magic = b'U' ∷ b'B' ∷ b'L' ∷ b'M' ∷ []

abbrev pub flag_has_pk_name : ℕ
flag_has_pk_name = 1

abbrev pub flag_has_bloom : ℕ
flag_has_bloom = 2

-- `flags&flag != 0`
abbrev pub has_flag : ℕ → ℕ → Bool
has_flag bits flag = not (bit_and bits flag == 0)

unfoldable pub column_type_to_wire : ColumnType → Option ℕ
column_type_to_wire ColumnType.int64 = some 0
column_type_to_wire ColumnType.float64 = some 1
column_type_to_wire ColumnType.string = some 2
column_type_to_wire (ColumnType.unknown u) = none

unfoldable pub wire_to_column_type : ℕ → Option ColumnType
wire_to_column_type w =
    if w == 0
    then some ColumnType.int64
    else if w == 1
    then some ColumnType.float64
    else if w == 2
    then some ColumnType.string
    else none

-- `byte(encoding)`, and `Encoding(b)` with the check for the two known values.
unfoldable pub encoding_to_wire : Encoding → ℕ
encoding_to_wire raw = 0
encoding_to_wire rle = 1

unfoldable pub wire_to_encoding : ℕ → Option Encoding
wire_to_encoding w = if w == 0 then some raw else if w == 1 then some rle else none

pub record ColumnBlock : Type 0 where
  pub encoding : Encoding
  pub payload : Bytes

-- A decoded column, `any` in Go.
pub data Decoded : Type 0 where
  int64s float64s : List ℕ → Decoded
  strings : List Bytes → Decoded

-- The maps `blocks` and `decoded` are lists, the latest entry first.
pub record Segment : Type 0 where
  pub version : ℕ
  pub schema : Schema
  pub row_count : ℕ
  pub blocks : List (Bytes × ColumnBlock)
  pub decoded : List (Bytes × Decoded)
  pub flags : ℕ
  pub pk_name : Bytes
  pub bloom_filter : Option Filter

unfoldable pub lookup {ℓ} : {A : Type ℓ} → Bytes → List (Bytes × A) → Option A
unfolding bytes_eq
lookup name [] = none
lookup name ((n, a) ∷ rest) = if bytes_eq n name then some a else lookup name rest

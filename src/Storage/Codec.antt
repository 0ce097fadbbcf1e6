-- ===== src/Storage/Codec.antt =====
-- Column payloads: storage/rle.go and storage/encoding.go. An int64 and a float64 are their 64 bits,
-- a string its bytes; the error texts carry no positions here.
pub mod Rle
pub mod Raw
pub mod Values
use uniqcol.Common.{
  Bytes, Result, drop, fail_if, if◌then◌else◌, length, ltb, ok, or_fail, panic, take, ℕ, ◌*◌, ◌++◌,
  ◌>>=◌, ◌>>◌,
}
use uniqcol.Binary.{put_uvarint, uvarint, put_uint_le, uint_le}

-- What a decoder found wrong.
pub data Fault : Type 0 where
  run_count string_length truncated_value too_many_rows row_count : Fault

-- `rle f` wraps `ErrRLECorrupt`; the raw decoders have no sentinel.
pub data Error : Type 0 where
  rle raw : Fault → Error

-- `make` panics at a negative size and past the address space of a 64-bit build, 2 ^ 48 bytes. A
-- negative int is its pattern, at least 2 ^ 63.
abbrev pub max_alloc : ℕ
max_alloc = 0x1_0000_0000_0000

unfoldable pub make_slice : ℕ → ℕ → Result Error (Unit {0})
make_slice size n = if ltb max_alloc (size * n) then panic else ok tt

-- One fixed-width value at the front of what is left, and one string with its length.
unfoldable pub put_fixed : ℕ → Bytes
put_fixed x = put_uint_le 8 x

unfoldable pub put_string : Bytes → Bytes
put_string s = put_uvarint (length s) ++ s

unfoldable pub take_fixed : (Fault → Error) → Bytes → Result Error (ℕ × Bytes)
take_fixed wrap buf = do
  fail_if (ltb (length buf) 8) (wrap Fault.truncated_value)
  ok (uint_le (take 8 buf), drop 8 buf)

unfoldable pub take_string : (Fault → Error) → Bytes → Result Error (Bytes × Bytes)
take_string wrap buf = do
  (n, rest) ← or_fail (uvarint buf) (wrap Fault.string_length)
  fail_if (ltb (length rest) n) (wrap Fault.truncated_value)
  ok (take n rest, drop n rest)

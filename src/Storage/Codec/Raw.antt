-- ===== src/Storage/Codec/Raw.antt =====
-- storage/encoding.go: the raw payloads, and the choice of an encoding.
pub mod RoundTrip
pub mod Sizes
use uniqcol.Common.{
  Bytes, List, Result, [], drop, fail_if, leb, length, not, ok, stuck, suc, take, zero, ℕ, ◌%◌, ◌*◌,
  ◌++◌, ◌==◌, ◌>>=◌, ◌>>◌, ◌∷◌,
}
use uniqcol.Binary.{uint_le}
use uniqcol.Storage.Codec.{Fault, Error, make_slice, put_fixed, put_string, take_string}

unfoldable pub encode_raw_fixed : List ℕ → Bytes
encode_raw_fixed [] = []
encode_raw_fixed (v ∷ vs) = put_fixed v ++ encode_raw_fixed vs

-- `out[i] = Uint64(data[i*8:])` for each row.
unfoldable pub decode_fixed : ℕ → Bytes → List ℕ
decode_fixed zero buf = []
decode_fixed (suc n) buf = uint_le (take 8 buf) ∷ decode_fixed n (drop 8 buf)

-- `8*expectedRows` wraps like an int.
unfoldable pub decode_raw_fixed : Bytes → ℕ → Result Error (List ℕ)
unfolding decode_fixed make_slice
decode_raw_fixed buf rows = do
  fail_if (not (length buf == 8 * rows % 0x1_0000_0000_0000_0000)) (Error.raw Fault.row_count)
  make_slice 8 rows
  ok (decode_fixed rows buf)

unfoldable pub encode_raw_int64 : List ℕ → Bytes
unfolding encode_raw_fixed
encode_raw_int64 = encode_raw_fixed

unfoldable pub decode_raw_int64 : Bytes → ℕ → Result Error (List ℕ)
unfolding decode_raw_fixed
decode_raw_int64 = decode_raw_fixed

unfoldable pub encode_raw_float64 : List ℕ → Bytes
unfolding encode_raw_fixed
encode_raw_float64 = encode_raw_fixed

unfoldable pub decode_raw_float64 : Bytes → ℕ → Result Error (List ℕ)
unfolding decode_raw_fixed
decode_raw_float64 = decode_raw_fixed

unfoldable pub encode_raw_string : List Bytes → Bytes
encode_raw_string [] = []
encode_raw_string (s ∷ ss) = put_string s ++ encode_raw_string ss

unfoldable pub decode_strings : ℕ → ℕ → Bytes → List Bytes → Result Error (List Bytes)
decode_strings fuel rows [] out = do
  fail_if (not (length out == rows)) (Error.raw Fault.row_count)
  ok out
decode_strings zero rows (b ∷ bs) out = stuck
decode_strings (suc fuel) rows (b ∷ bs) out = do
  fail_if (leb rows (length out)) (Error.raw Fault.too_many_rows)
  (s, rest) ← take_string Error.raw (b ∷ bs)
  decode_strings fuel rows rest (out ++ s ∷ [])

-- Each round takes a byte at least, so `length data` rounds are enough.
unfoldable pub decode_raw_string : Bytes → ℕ → Result Error (List Bytes)
unfolding decode_strings make_slice
decode_raw_string buf rows = do make_slice 16 rows; decode_strings (length buf) rows buf []

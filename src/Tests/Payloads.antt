-- ===== src/Tests/Payloads.antt =====
-- The column encodings at short columns.
use uniqcol.Common.{
  All, Bytes, List, [], arith, length, ok, panic, refl, stuck, ℕ, ◌%◌, ◌*◌, ◌↔◌, ◌∷◌, ◌≡◌, ◌≢◌, ◌≤◌,
}
use uniqcol.Storage.Codec.Rle.{
  encode_rle_int64, encode_rle_string, decode_rle_int64, decode_rle_string,
}
use uniqcol.Storage.Codec.Rle.RoundTrip.{
  decode_rle_int64-encode_rle_int64, decode_rle_string-encode_rle_string,
}
use uniqcol.Storage.Codec.Rle.Bounds.{decode_rle_int64_total}
use uniqcol.Storage.Codec.Raw.{decode_raw_int64}
use uniqcol.Storage.Codec.Raw.RoundTrip.{decode_raw_int64_panics}
use uniqcol.Binary.{IsU64, put_uvarint, put_uint_le}

abbrev numbers : List ℕ
numbers = 7 ∷ 7 ∷ 0xffff_ffff_ffff_ffff ∷ []

abbrev words : List Bytes
words = (b'x' ∷ []) ∷ (b'x' ∷ []) ∷ [] ∷ []

numbers-IsU64 : All IsU64 numbers
numbers-IsU64 = (omega arith, (omega arith, (omega arith, tt)))

words-IsU64 : All (λ (s : Bytes). IsU64 (length s)) words
words-IsU64 = (omega arith, (omega arith, (omega arith, tt)))

-- Two runs, of two and of one.
two_runs :
    encode_rle_int64 numbers
    ≡ 2 ∷ 7 ∷ 0 ∷ 0 ∷ 0 ∷ 0 ∷ 0 ∷ 0 ∷ 0 ∷ 1 ∷ 255 ∷ 255 ∷ 255 ∷ 255 ∷ 255 ∷ 255 ∷ 255 ∷ 255 ∷ []
unfolding encode_rle_int64 put_uvarint put_uint_le
two_runs = refl

decode_rle_int64-encode_rle_int64_example :
    decode_rle_int64 (encode_rle_int64 numbers) 3 ≡ ok numbers
decode_rle_int64-encode_rle_int64_example =
    decode_rle_int64-encode_rle_int64 numbers (omega arith) numbers-IsU64

decode_rle_string-encode_rle_string_example :
    decode_rle_string (encode_rle_string words) 3 ≡ ok words
decode_rle_string-encode_rle_string_example =
    decode_rle_string-encode_rle_string words (omega arith) words-IsU64

-- A payload that claims a run of three where two rows are expected.
abbrev too_long : Bytes
too_long = 3 ∷ 7 ∷ 0 ∷ 0 ∷ 0 ∷ 0 ∷ 0 ∷ 0 ∷ 0 ∷ []

decode_rle_int64_total_example :
    (decode_rle_int64 too_long 2 ≢ stuck)
    × ((vs : List ℕ) → decode_rle_int64 too_long 2 ≡ ok vs → length vs ≡ 2)
decode_rle_int64_total_example = decode_rle_int64_total too_long 2

-- No payload, and a row count whose eightfold is 2 ^ 64.
-- One value, where 2 ^ 61 + 1 are expected.
abbrev one_value : Bytes
one_value = 7 ∷ 0 ∷ 0 ∷ 0 ∷ 0 ∷ 0 ∷ 0 ∷ 0 ∷ []

decode_raw_int64_panics_example : (decode_raw_int64 one_value 0x2000_0000_0000_0001 ≡ panic) ↔ (
    (0x2000_0000_0000_0000 ≤ 0x2000_0000_0000_0001)
    × (length one_value ≡ 8 * (0x2000_0000_0000_0001 % 0x2000_0000_0000_0000)))
decode_raw_int64_panics_example =
    decode_raw_int64_panics one_value 0x2000_0000_0000_0001 (omega arith)

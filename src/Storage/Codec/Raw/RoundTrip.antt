-- ===== src/Storage/Codec/Raw/RoundTrip.antt =====
-- The raw decoders give back what the raw encoders were given, and end on any payload.
use uniqcol.Common.{
  All, Bytes, List, [], ap, append-nil, append_assoc, arith, drop, leb_of_lt, length, length-append,
  ok, panic, refl, suc, zero, ℕ, ◌%◌, ◌*◌, ◌++◌, ◌+◌, ◌<◌, ◌↔◌, ◌∙◌, ◌∷◌, ◌≡◌, ◌≤◌,
}
use uniqcol.Storage.Codec.Values.{take_string-put_string, fits_make_slice, length-put_string}
use uniqcol.Storage.Codec.Raw.{
  encode_raw_fixed, decode_fixed, decode_raw_fixed, encode_raw_int64, decode_raw_int64,
  encode_raw_float64, decode_raw_float64, encode_raw_string, decode_strings, decode_raw_string,
}
use uniqcol.Storage.Codec.{Error, max_alloc, put_fixed, put_string, take_string, make_slice}
use uniqcol.Binary.Fixed.{length-put_uint_le, uint_le-put_uint_le}
use uniqcol.Binary.{IsU64, uvarint, put_uint_le}

length-encode_raw_fixed : (vs : List ℕ) → length (encode_raw_fixed vs) ≡ 8 * length vs
unfolding encode_raw_fixed put_fixed
length-encode_raw_fixed [] = omega arith
length-encode_raw_fixed (v ∷ vs) = omega (
  arith,
  length-append (put_uint_le 8 v) (encode_raw_fixed vs),
  length-put_uint_le 8 v,
  length-encode_raw_fixed vs,
)

decode_fixed-encode_raw_fixed :
    (vs : List ℕ) → All IsU64 vs → decode_fixed (length vs) (encode_raw_fixed vs) ≡ vs
unfolding decode_fixed encode_raw_fixed put_fixed put_uint_le
decode_fixed-encode_raw_fixed [] h = refl
decode_fixed-encode_raw_fixed (v ∷ vs) (h, hs) =
    cc (uint_le-put_uint_le 8 v h, decode_fixed-encode_raw_fixed vs hs)

pub length-decode_fixed : (n : ℕ) (buf : Bytes) → length (decode_fixed n buf) ≡ n
unfolding decode_fixed
length-decode_fixed zero buf = refl
length-decode_fixed (suc n) buf = ap suc (length-decode_fixed n (drop 8 buf))

decode_raw_fixed-encode_raw_fixed :
    (vs : List ℕ)
    → 8 * length vs ≤ max_alloc
    → All IsU64 vs
    → decode_raw_fixed (encode_raw_fixed vs) (length vs) ≡ ok vs
unfolding decode_raw_fixed
decode_raw_fixed-encode_raw_fixed vs room h =
    ground (arith, length-encode_raw_fixed vs, decode_fixed-encode_raw_fixed vs h)

-- An int64 column of 64-bit words, for whose rows `make` has room, is read back from its raw
-- payload.
pub decode_raw_int64-encode_raw_int64 :
    (vs : List ℕ)
    → 8 * length vs ≤ max_alloc
    → All IsU64 vs
    → decode_raw_int64 (encode_raw_int64 vs) (length vs) ≡ ok vs
unfolding decode_raw_int64 encode_raw_int64
decode_raw_int64-encode_raw_int64 = decode_raw_fixed-encode_raw_fixed

-- A float64 column of 64-bit words, for whose rows `make` has room, is read back from its raw
-- payload bit for bit.
pub decode_raw_float64-encode_raw_float64 :
    (vs : List ℕ)
    → 8 * length vs ≤ max_alloc
    → All IsU64 vs
    → decode_raw_float64 (encode_raw_float64 vs) (length vs) ≡ ok vs
unfolding decode_raw_float64 encode_raw_float64
decode_raw_float64-encode_raw_float64 = decode_raw_fixed-encode_raw_fixed

-- The raw int64 decoder panics on a payload of at most 2 ^ 48 bytes exactly when the row count is 2
-- ^ 61 or more and the payload has the length of the values whose number is the row count modulo 2
-- ^ 61: the length check compares with a product that wraps. On every other row count it does not
-- panic.
pub decode_raw_int64_panics :
    (buf : Bytes) (rows : ℕ)
    → length buf ≤ max_alloc
    → (decode_raw_int64 buf rows ≡ panic)
      ↔ ((0x2000_0000_0000_0000 ≤ rows) × (length buf ≡ 8 * (rows % 0x2000_0000_0000_0000)))
unfolding decode_raw_int64 make_slice
decode_raw_int64_panics buf rows fits = (there, back)
  where
    there :
        decode_raw_int64 buf rows ≡ panic
        → (0x2000_0000_0000_0000 ≤ rows) × (length buf ≡ 8 * (rows % 0x2000_0000_0000_0000))
    there e = ground arith

    back :
        (0x2000_0000_0000_0000 ≤ rows) × (length buf ≡ 8 * (rows % 0x2000_0000_0000_0000))
        → decode_raw_int64 buf rows ≡ panic
    back (large, same) = ground arith

decode_strings_end :
    (fuel rows : ℕ) (out : List Bytes)
    → length out ≡ rows
    → decode_strings fuel rows [] out ≡ ok out
unfolding decode_strings
decode_strings_end fuel rows out h = ground arith

decode_strings_step :
    (fuel rows : ℕ) (buf : Bytes) (out : List Bytes) (s rest : Bytes)
    → take_string Error.raw buf ≡ ok (s, rest)
    → length out < rows
    → decode_strings (suc fuel) rows buf out ≡ decode_strings fuel rows rest (out ++ s ∷ [])
unfolding decode_strings
decode_strings_step fuel rows [] out s rest got fits = unfold take_string uvarint in cc
decode_strings_step fuel rows (b ∷ bs) out s rest got fits =
    rw (leb_of_lt (length out) rows fits, got)

decode_strings-encode_raw_string :
    (vs : List Bytes) (fuel rows : ℕ) (out : List Bytes)
    → All (λ s. IsU64 (length s)) vs
    → length out + length vs ≡ rows
    → length (encode_raw_string vs) ≤ fuel
    → decode_strings fuel rows (encode_raw_string vs) out ≡ ok (out ++ vs)
unfolding encode_raw_string
decode_strings-encode_raw_string [] fuel rows out h total enough =
    decode_strings_end fuel rows out (omega arith) ∙ rw append-nil
decode_strings-encode_raw_string (s ∷ ss) zero rows out (h, hs) total enough =
    absurd (omega (arith, length-append (put_string s) (encode_raw_string ss), length-put_string s))
decode_strings-encode_raw_string (s ∷ ss) (suc fuel) rows out (h, hs) total enough =
    decode_strings_step fuel rows _ out s _ (take_string-put_string Error.raw s _ h) (omega arith)
    ∙ decode_strings-encode_raw_string ss fuel rows (out ++ s ∷ []) hs
        (omega (arith, length-append out (s ∷ [])))
        (omega (arith, length-append (put_string s) (encode_raw_string ss), length-put_string s))
    ∙ ap ok (append_assoc out (s ∷ []) ss)

-- A string column, for whose rows `make` has room, is read back from its raw payload. The lengths
-- of the strings are below 2 ^ 64.
pub decode_raw_string-encode_raw_string :
    (vs : List Bytes)
    → 16 * length vs ≤ max_alloc
    → All (λ s. IsU64 (length s)) vs
    → decode_raw_string (encode_raw_string vs) (length vs) ≡ ok vs
unfolding decode_raw_string
decode_raw_string-encode_raw_string vs room h =
    rw (fits_make_slice 16 (length vs) room)
      (decode_strings-encode_raw_string vs _ (length vs) [] h (omega arith) (omega arith))

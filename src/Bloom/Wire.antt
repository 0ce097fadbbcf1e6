-- ===== src/Bloom/Wire.antt =====
-- `MarshalBinary` and `UnmarshalBinary` of bloom/bloom.go.
pub mod RoundTrip
use uniqcol.Common.{
  Bytes, Result, drop, fail_if, get_or, length, ltb, not, ok, or_fail, take, ℕ, ◌%◌, ◌++◌, ◌+◌, ◌/◌,
  ◌==◌, ◌>>=◌, ◌>>◌, ◌||◌, ◌∷◌,
}
use uniqcol.Bloom.Filter.{Filter, u64_mod}
use uniqcol.Binary.{put_uvarint, uvarint, put_uint_le, uint_le}

-- The malformed inputs, which all wrap `ErrCorruptFilter`.
pub data Error : Type 0 where
  header_short bits_length payload_length m_zero bits_mismatch k_range : Error

unfoldable pub marshal_binary : Filter → Bytes
marshal_binary f =
    put_uint_le 8 f.m
    ++ (f.k ∷ (put_uint_le 8 f.n_added ++ (put_uvarint (length f.bits) ++ f.bits)))

-- The filter behind the checks. The receiver's old fields are all overwritten. `m + 7` wraps.
unfoldable pub unmarshal_checked : ℕ → ℕ → ℕ → ℕ → Bytes → Result Error Filter
unmarshal_checked m k n_added bits_len rest = do
  fail_if (not (length rest == bits_len)) Error.payload_length
  fail_if (m == 0) Error.m_zero
  fail_if (not (bits_len == (m + 7) % u64_mod / 8)) Error.bits_mismatch
  fail_if (ltb k 1 || ltb 30 k) Error.k_range
  ok (record { m = m; k = k; bits = rest; n_added = n_added })

unfoldable pub unmarshal_binary : Bytes → Result Error Filter
unfolding unmarshal_checked
unmarshal_binary buf = do
  fail_if (ltb (length buf) 17) Error.header_short
  let m = uint_le (take 8 buf)
  let k = get_or buf 8 0
  let n_added = uint_le (take 8 (drop 9 buf))
  (bits_len, rest) ← or_fail (uvarint (drop 17 buf)) Error.bits_length
  unmarshal_checked m k n_added bits_len rest

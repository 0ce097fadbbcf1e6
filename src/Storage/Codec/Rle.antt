-- ===== src/Storage/Codec/Rle.antt =====
-- storage/rle.go. One encoder and one decoder serve the three column types: they differ in the
-- equality of values and in how a value is written and read.
pub mod Bounds
pub mod RoundTrip
use uniqcol.Common.{
  Bool, Bytes, List, Result, [], bytes_eq, fail_if, false, length, ltb, not, ok, or_fail, replicate,
  stuck, suc, true, zero, ℕ, ◌++◌, ◌+◌, ◌-◌, ◌==◌, ◌>>=◌, ◌>>◌, ◌||◌, ◌∷◌,
}
use uniqcol.Binary.{put_uvarint, uvarint}
use uniqcol.Storage.Codec.{Fault, Error, make_slice, put_fixed, put_string, take_fixed, take_string}

module _ {ℓ} {A : Type ℓ} where
  unfoldable pub put_run : (A → Bytes) → ℕ → A → Bytes
  put_run put count v = put_uvarint count ++ put v

  -- The loops over i and j: `v` is `values[i]`, `count` is `j-i`, and the list is `values[j:]`.
  unfoldable pub put_runs : (A → A → Bool) → (A → Bytes) → A → ℕ → List A → Bytes
  unfolding put_run
  put_runs eq put v count [] = put_run put count v
  put_runs eq put v count (w ∷ ws) = elim (eq w v) [
    | true ↦ put_runs eq put v (count + 1) ws
    | false ↦ put_run put count v ++ put_runs eq put w 1 ws
  ]

  unfoldable pub encode_rle : (A → A → Bool) → (A → Bytes) → List A → Bytes
  unfolding put_runs
  encode_rle eq put [] = []
  encode_rle eq put (v ∷ vs) = put_runs eq put v 1 vs

  -- `for offset < len(data)`, with one unit of fuel a round.
  unfoldable pub decode_runs :
      (Bytes → Result Error (A × Bytes)) → ℕ → ℕ → Bytes → List A → Result Error (List A)
  decode_runs get fuel rows [] out = do
    fail_if (not (length out == rows)) (Error.rle Fault.row_count)
    ok out
  decode_runs get zero rows (b ∷ bs) out = stuck
  decode_runs get (suc fuel) rows (b ∷ bs) out = do
    (count, after_count) ← or_fail (uvarint (b ∷ bs)) (Error.rle Fault.run_count)
    (v, rest) ← get after_count
    fail_if (ltb rows (length out) || ltb (rows - length out) count) (Error.rle Fault.too_many_rows)
    decode_runs get fuel rows rest (out ++ replicate count v)

  -- Each round takes a byte at least, so `length data` rounds are enough.
  unfoldable pub decode_rle :
      ℕ → (Bytes → Result Error (A × Bytes)) → Bytes → ℕ → Result Error (List A)
  unfolding decode_runs make_slice
  decode_rle size get buf rows = do make_slice size rows; decode_runs get (length buf) rows buf []

unfoldable pub encode_rle_int64 : List ℕ → Bytes
unfolding encode_rle put_fixed
encode_rle_int64 = encode_rle ◌==◌ put_fixed

unfoldable pub decode_rle_int64 : Bytes → ℕ → Result Error (List ℕ)
unfolding decode_rle take_fixed
decode_rle_int64 = decode_rle 8 (take_fixed Error.rle)

-- Equality is that of the bit patterns.
unfoldable pub encode_rle_float64 : List ℕ → Bytes
unfolding encode_rle put_fixed
encode_rle_float64 = encode_rle ◌==◌ put_fixed

unfoldable pub decode_rle_float64 : Bytes → ℕ → Result Error (List ℕ)
unfolding decode_rle take_fixed
decode_rle_float64 = decode_rle 8 (take_fixed Error.rle)

unfoldable pub encode_rle_string : List Bytes → Bytes
unfolding encode_rle put_string bytes_eq
encode_rle_string = encode_rle bytes_eq put_string

-- A string header takes 16 bytes.
unfoldable pub decode_rle_string : Bytes → ℕ → Result Error (List Bytes)
unfolding decode_rle take_string
decode_rle_string = decode_rle 16 (take_string Error.rle)

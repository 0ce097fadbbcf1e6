-- ===== src/Storage/Codec/Rle/RoundTrip.antt =====
-- The RLE decoders give back what the encoders were given, and always end.
use uniqcol.Common.{
  ==_sound, All, Bool, Bool-cases, Bytes, List, Result, [], ap, append-nil, append_assoc, arith,
  bytes_eq, bytes_eq_iff, false, inl, inr, length, length-append, length-replicate, le→ltb, ok,
  refl, replicate, some, suc, true, zero, ℕ, ◌*◌, ◌++◌, ◌+◌, ◌-◌, ◌==◌, ◌∙◌, ◌∷◌, ◌≡◌, ◌≤◌,
}
use uniqcol.Storage.Codec.Values.{take_fixed-put_fixed, take_string-put_string, fits_make_slice}
use uniqcol.Binary.Varint.{uvarint-put_uvarint, length-put_uvarint}
use uniqcol.Binary.{uvarint, IsU64, put_uvarint}
use uniqcol.Storage.Codec.{Error, max_alloc, put_fixed, put_string, take_fixed, take_string}
use uniqcol.Storage.Codec.Rle.{
  decode_runs, put_run, put_runs, encode_rle, decode_rle, encode_rle_int64, decode_rle_int64,
  encode_rle_float64, decode_rle_float64, encode_rle_string, decode_rle_string,
}
use native.Mathlib.Numerals.{add-one}

-- The next equal value joins the run.
replicate-suc {ℓ} :
    {A : Type ℓ} (n : ℕ) (a : A) (xs : List A) → replicate (suc n) a ++ xs ≡ replicate n a ++ a ∷ xs
replicate-suc zero a xs = refl
replicate-suc (suc n) a xs = ap (◌∷◌ a) (replicate-suc n a xs)

decode_runs_step {ℓ} :
    {A : Type ℓ} (get : Bytes → Result Error (A × Bytes)) (fuel rows : ℕ) (buf : Bytes)
    (out : List A) (count : ℕ) (after_count rest : Bytes) (v : A)
    → uvarint buf ≡ some (count, after_count)
    → get after_count ≡ ok (v, rest)
    → length out + count ≤ rows
    → decode_runs get (suc fuel) rows buf out
      ≡ decode_runs get fuel rows rest (out ++ replicate count v)
unfolding decode_runs
decode_runs_step get fuel rows [] out count after_count rest v read got fits = unfold uvarint in cc
decode_runs_step get fuel rows (b ∷ bs) out count after_count rest v read got fits = rw (
  read,
  got,
  le→ltb rows (length out) (omega arith),
  le→ltb (rows - length out) count (omega arith),
)

module _ {ℓ} {A : Type ℓ} (eq : A → A → Bool) (put : A → Bytes)
    (get : Bytes → Result Error (A × Bytes)) (Fits : A → Type 0)
    (eq_sound : (a b : A) → eq a b ≡ true → a ≡ b)
    (get-put : (a : A) (rest : Bytes) → Fits a → get (put a ++ rest) ≡ ok (a, rest)) where
  -- One round on a run that fits.
  decode_runs-put_run :
      (fuel rows count : ℕ) (v : A) (rest : Bytes) (out : List A)
      → IsU64 rows
      → Fits v
      → length out + count ≤ rows
      → length (put_run put count v ++ rest) ≤ fuel
      → (less : ℕ) × (length rest ≤ less)
        × (decode_runs get fuel rows (put_run put count v ++ rest) out
            ≡ decode_runs get less rows rest (out ++ replicate count v))
  unfolding put_run
  decode_runs-put_run zero rows count v rest out hr hv fits enough =
      absurd (omega (arith, too_short))
    where
      too_short : 1 ≤ length ((put_uvarint count ++ put v) ++ rest)
      too_short = omega (
        arith,
        length-append (put_uvarint count ++ put v) rest,
        length-append (put_uvarint count) (put v),
        (length-put_uvarint count).0,
      )
  decode_runs-put_run (suc fuel) rows count v rest out hr hv fits enough = (
    fuel,
    omega (
      arith,
      length-append (put_uvarint count ++ put v) rest,
      length-append (put_uvarint count) (put v),
      (length-put_uvarint count).0,
    ),
    decode_runs_step get fuel rows _ out count _ rest v
        (rw append_assoc (uvarint-put_uvarint count (put v ++ rest) (omega arith)))
        (get-put v rest hv) fits,
  )

  decode_runs_end :
      (fuel rows : ℕ) (out : List A) → length out ≡ rows → decode_runs get fuel rows [] out ≡ ok out
  unfolding decode_runs
  decode_runs_end fuel rows out h = ground arith

  put_runs_same :
      (w v : A) (count : ℕ) (ws : List A)
      → eq w v ≡ true
      → put_runs eq put v count (w ∷ ws) ≡ put_runs eq put v (count + 1) ws
  unfolding put_runs
  put_runs_same w v count ws h = rw (h, put_runs)

  put_runs_other :
      (w v : A) (count : ℕ) (ws : List A)
      → eq w v ≡ false
      → put_runs eq put v count (w ∷ ws) ≡ put_run put count v ++ put_runs eq put w 1 ws
  unfolding put_runs
  put_runs_other w v count ws h = rw (h, put_runs)

  decode_runs-put_runs :
      (ws : List A) (v : A) (count fuel rows : ℕ) (out : List A)
      → IsU64 rows
      → Fits v
      → All Fits ws
      → length out + count + length ws ≡ rows
      → length (put_runs eq put v count ws) ≤ fuel
      → decode_runs get fuel rows (put_runs eq put v count ws) out
        ≡ ok (out ++ (replicate count v ++ ws))
  unfolding put_runs
  decode_runs-put_runs [] v count fuel rows out hr hv hs total enough =
      let (less, room, run) =
        decode_runs-put_run fuel rows count v [] out hr hv (omega arith) (rw append-nil enough) in
      rw append-nil at run
      ∙ decode_runs_end less rows (out ++ replicate count v)
          (omega (arith, length-append out (replicate count v), length-replicate count v))
      ∙ rw (append-nil (replicate count v))
  decode_runs-put_runs (w ∷ ws) v count fuel rows out hr hv (hw, hs) total enough =
      elim (Bool-cases (eq w v)) [
        | inl same ↦ rw (put_runs_same w v count ws same) (
            decode_runs-put_runs ws v (count + 1) fuel rows out hr hv hs (omega arith)
              (rw (put_runs_same w v count ws same) at enough)
            ∙ ap (λ (t : List A). ok (out ++ t))
                (rw (eq_sound w v same, add-one) (replicate-suc count v ws)))
        | inr other ↦
            let (less, room, run) =
              decode_runs-put_run fuel rows count v (put_runs eq put w 1 ws) out hr hv (omega arith)
                (rw (put_runs_other w v count ws other) at enough) in
            rw (put_runs_other w v count ws other) (
              run
              ∙ decode_runs-put_runs ws w 1 less rows (out ++ replicate count v) hr hw hs
                  (omega (arith, length-append out (replicate count v), length-replicate count v))
                  room
              ∙ ap ok (append_assoc out (replicate count v) (w ∷ ws)))
      ]

  -- The payload of a column of `rows` values decodes to that column.
  decode_rle-encode_rle :
      (size : ℕ) (vs : List A)
      → 1 ≤ size
      → size * length vs ≤ max_alloc
      → All Fits vs
      → decode_rle size get (encode_rle eq put vs) (length vs) ≡ ok vs
  unfolding decode_rle encode_rle
  decode_rle-encode_rle size vs pos room h =
      rw (fits_make_slice size (length vs) room) (go vs pos room h)
    where
      go :
          (ws : List A)
          → 1 ≤ size
          → size * length ws ≤ max_alloc
          → All Fits ws
          → decode_runs get (length (encode_rle eq put ws)) (length ws) (encode_rle eq put ws) []
            ≡ ok ws
      go [] p r k = decode_runs_end 0 0 [] refl
      go (w ∷ ws) p r (hw, hs) =
          decode_runs-put_runs ws w 1 _ (length (w ∷ ws)) [] (grind arith) hw hs (omega arith)
            (omega arith)

-- An int64 column of 64-bit words, for whose rows `make` has room, is read back from its RLE
-- payload.
pub decode_rle_int64-encode_rle_int64 :
    (vs : List ℕ)
    → 8 * length vs ≤ max_alloc
    → All IsU64 vs
    → decode_rle_int64 (encode_rle_int64 vs) (length vs) ≡ ok vs
unfolding decode_rle_int64 encode_rle_int64
decode_rle_int64-encode_rle_int64 vs room h =
    decode_rle-encode_rle ◌==◌ put_fixed (take_fixed Error.rle) IsU64 ==_sound
      (take_fixed-put_fixed Error.rle) 8 vs (omega arith) room h

-- A float64 column of 64-bit words, for whose rows `make` has room, is read back from its RLE
-- payload bit for bit, NaNs and negative zeros included.
pub decode_rle_float64-encode_rle_float64 :
    (vs : List ℕ)
    → 8 * length vs ≤ max_alloc
    → All IsU64 vs
    → decode_rle_float64 (encode_rle_float64 vs) (length vs) ≡ ok vs
unfolding decode_rle_float64 encode_rle_float64
decode_rle_float64-encode_rle_float64 vs room h =
    decode_rle-encode_rle ◌==◌ put_fixed (take_fixed Error.rle) IsU64 ==_sound
      (take_fixed-put_fixed Error.rle) 8 vs (omega arith) room h

-- A string column, for whose rows `make` has room, is read back from its RLE payload, whatever
-- bytes the strings have. Their lengths are below 2 ^ 64.
pub decode_rle_string-encode_rle_string :
    (vs : List Bytes)
    → 16 * length vs ≤ max_alloc
    → All (λ s. IsU64 (length s)) vs
    → decode_rle_string (encode_rle_string vs) (length vs) ≡ ok vs
unfolding decode_rle_string encode_rle_string
decode_rle_string-encode_rle_string vs room h =
    decode_rle-encode_rle bytes_eq put_string (take_string Error.rle) (λ s. IsU64 (length s))
      (λ a b. (bytes_eq_iff a b).0) (take_string-put_string Error.rle) 16 vs (omega arith) room h

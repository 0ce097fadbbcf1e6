-- ===== src/Storage/Codec/Rle/Bounds.antt =====
-- What the RLE decoders do on any payload: they end, and a success has the expected number of rows.
use uniqcol.Common.{
  >>=-eq-ok, >>=-ne-stuck, Bool-cases, Bytes, List, Result, [], ap, arith, fail_if-eq-ok,
  fail_if-ne-stuck, inl, inr, length, not, not_==-false, ok, ok-injective, or_fail, or_fail-eq-ok,
  or_fail-ne-stuck, replicate, stuck, suc, sym, zero, ℕ, ◌*◌, ◌++◌, ◌<◌, ◌==◌, ◌∙◌, ◌∷◌, ◌≡◌, ◌≢◌,
  ◌≤◌,
}
use uniqcol.Storage.Codec.Values.{
  take_fixed_shorter, take_string_shorter, take_fixed-ne-stuck, take_string-ne-stuck,
  make_slice-ne-stuck, make_slice-eq-ok,
}
use uniqcol.Binary.{uvarint}
use uniqcol.Storage.Codec.Rle.{
  decode_runs, decode_rle, decode_rle_int64, decode_rle_string, decode_rle_float64,
}
use uniqcol.Storage.Codec.{Error, max_alloc, make_slice}
use uniqcol.Binary.Varint.{uvarint_shorter}
use uniqcol.Binary.{uvarint}

module _ {ℓ} {A : Type ℓ} (get : Bytes → Result Error (A × Bytes)) where
  decode_runs-ne-stuck :
      ((buf : Bytes) → get buf ≢ stuck)
      → ((buf : Bytes) (v : A) (rest : Bytes) → get buf ≡ ok (v, rest) → length rest < length buf)
      → (fuel rows : ℕ) (buf : Bytes) (out : List A) → length buf ≤ fuel
      → decode_runs get fuel rows buf out ≢ stuck
  unfolding decode_runs
  decode_runs-ne-stuck ends shorter fuel rows [] out h e = elim (Bool-cases (length out == rows)) [
    | inl same ↦ cc (rw same at e)
    | inr other ↦ cc (rw other at e)
  ]
  decode_runs-ne-stuck ends shorter zero rows (b ∷ bs) out h e = absurd (omega arith)
  decode_runs-ne-stuck ends shorter (suc fuel) rows (b ∷ bs) out h e =
      >>=-ne-stuck (or_fail (uvarint (b ∷ bs)) _) _ (or_fail-ne-stuck (uvarint (b ∷ bs)) _)
        (λ (count, after) found. >>=-ne-stuck (get after) _ (ends after) (λ (v, rest) got.
          fail_if-ne-stuck _ _ _ (
            decode_runs-ne-stuck ends shorter fuel rows rest _ (
              omega (
                arith,
                shorter after v rest got,
                uvarint_shorter (b ∷ bs) count after (or_fail-eq-ok _ _ found),
              )))))
        e

  length-decode_runs :
      (fuel rows : ℕ) (buf : Bytes) (out vs : List A)
      → decode_runs get fuel rows buf out ≡ ok vs
      → length vs ≡ rows
  unfolding decode_runs
  length-decode_runs fuel rows [] out vs e =
      let (same, done) = fail_if-eq-ok (not (length out == rows)) _ _ e in
      ap length (sym (ok-injective done)) ∙ not_==-false (length out) rows same
  length-decode_runs zero rows (b ∷ bs) out vs e = cc
  length-decode_runs (suc fuel) rows (b ∷ bs) out vs e =
      let ((count, after), _, e₁) = >>=-eq-ok (or_fail (uvarint (b ∷ bs)) _) _ e in
      let ((v, rest), _, e₂) = >>=-eq-ok (get after) _ e₁ in
      length-decode_runs fuel rows rest (out ++ replicate count v) vs (fail_if-eq-ok _ _ _ e₂).1

module _ {ℓ} {A : Type ℓ} (size : ℕ) (get : Bytes → Result Error (A × Bytes)) where
  decode_rle-ne-stuck :
      ((buf : Bytes) → get buf ≢ stuck)
      → ((buf : Bytes) (v : A) (rest : Bytes) → get buf ≡ ok (v, rest) → length rest < length buf)
      → (buf : Bytes) (rows : ℕ) → decode_rle size get buf rows ≢ stuck
  unfolding decode_rle
  decode_rle-ne-stuck ends shorter buf rows =
      >>=-ne-stuck (make_slice size rows) _ (make_slice-ne-stuck size rows)
        (λ _ _. decode_runs-ne-stuck get ends shorter (length buf) rows buf [] (omega arith))

  length-decode_rle :
      (buf : Bytes) (rows : ℕ) (vs : List A)
      → decode_rle size get buf rows ≡ ok vs
      → (length vs ≡ rows) × (size * rows ≤ max_alloc)
  unfolding decode_rle
  length-decode_rle buf rows vs e =
      let (u, made, run) = >>=-eq-ok (make_slice size rows) _ e in
      (length-decode_runs get (length buf) rows buf [] vs run, make_slice-eq-ok size rows made)

-- On any payload and row count the RLE decoder of int64 columns comes to an end within the fuel,
-- and a column that it returns has exactly that many rows.
pub decode_rle_int64_total :
    (buf : Bytes) (rows : ℕ)
    → (decode_rle_int64 buf rows ≢ stuck)
      × ((vs : List ℕ) → decode_rle_int64 buf rows ≡ ok vs → length vs ≡ rows)
unfolding decode_rle_int64
decode_rle_int64_total buf rows = (
  decode_rle-ne-stuck 8 _ (take_fixed-ne-stuck Error.rle) (take_fixed_shorter Error.rle) buf rows,
  λ vs e. (length-decode_rle 8 _ buf rows vs e).0,
)

-- On any payload and row count the RLE decoder of string columns comes to an end within the fuel,
-- and a column that it returns has exactly that many rows.
pub decode_rle_string_total :
    (buf : Bytes) (rows : ℕ)
    → (decode_rle_string buf rows ≢ stuck)
      × ((vs : List Bytes) → decode_rle_string buf rows ≡ ok vs → length vs ≡ rows)
unfolding decode_rle_string
decode_rle_string_total buf rows = (
  decode_rle-ne-stuck 16 _ (take_string-ne-stuck Error.rle) (take_string_shorter Error.rle) buf
      rows,
  λ vs e. (length-decode_rle 16 _ buf rows vs e).0,
)

-- On any payload and row count the RLE decoder of float64 columns comes to an end within the fuel,
-- and a column that it returns has exactly that many rows.
pub decode_rle_float64_total :
    (buf : Bytes) (rows : ℕ)
    → (decode_rle_float64 buf rows ≢ stuck)
      × ((vs : List ℕ) → decode_rle_float64 buf rows ≡ ok vs → length vs ≡ rows)
unfolding decode_rle_float64
decode_rle_float64_total buf rows = (
  decode_rle-ne-stuck 8 _ (take_fixed-ne-stuck Error.rle) (take_fixed_shorter Error.rle) buf rows,
  λ vs e. (length-decode_rle 8 _ buf rows vs e).0,
)

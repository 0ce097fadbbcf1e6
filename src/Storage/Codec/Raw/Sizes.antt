-- ===== src/Storage/Codec/Raw/Sizes.antt =====
-- A raw column that a decoder returns has as many values as rows were expected.
use uniqcol.Common.{
  >>=-eq-ok, Bytes, List, [], ap, fail_if-eq-ok, leb, length, not, not_==-false, ok, ok-injective,
  suc, sym, zero, ℕ, ◌%◌, ◌*◌, ◌++◌, ◌==◌, ◌∙◌, ◌∷◌, ◌≡◌,
}
use uniqcol.Storage.Codec.Raw.RoundTrip.{length-decode_fixed}
use uniqcol.Storage.Codec.Raw.{decode_raw_fixed, decode_strings, decode_raw_string}
use uniqcol.Storage.Codec.{Error, make_slice, take_string}

pub length-decode_raw_fixed :
    (buf : Bytes) (rows : ℕ) (vs : List ℕ) → decode_raw_fixed buf rows ≡ ok vs → length vs ≡ rows
unfolding decode_raw_fixed
length-decode_raw_fixed buf rows vs e =
    let (same, e₁) = fail_if-eq-ok (not (length buf == 8 * rows % 0x1_0000_0000_0000_0000)) _ _ e in
    let (u, _, e₂) = >>=-eq-ok (make_slice 8 rows) _ e₁ in
    ap length (sym (ok-injective e₂)) ∙ length-decode_fixed rows buf

length-decode_strings :
    (fuel rows : ℕ) (buf : Bytes) (out vs : List Bytes)
    → decode_strings fuel rows buf out ≡ ok vs
    → length vs ≡ rows
unfolding decode_strings
length-decode_strings fuel rows [] out vs e =
    let (same, done) = fail_if-eq-ok (not (length out == rows)) _ _ e in
    ap length (sym (ok-injective done)) ∙ not_==-false (length out) rows same
length-decode_strings zero rows (b ∷ bs) out vs e = cc
length-decode_strings (suc fuel) rows (b ∷ bs) out vs e =
    let (_, e₁) = fail_if-eq-ok (leb rows (length out)) _ _ e in
    let ((s, rest), _, e₂) = >>=-eq-ok (take_string Error.raw (b ∷ bs)) _ e₁ in
    length-decode_strings fuel rows rest (out ++ s ∷ []) vs e₂

pub length-decode_raw_string :
    (buf : Bytes) (rows : ℕ) (vs : List Bytes)
    → decode_raw_string buf rows ≡ ok vs
    → length vs ≡ rows
unfolding decode_raw_string
length-decode_raw_string buf rows vs e =
    let (u, _, e₁) = >>=-eq-ok (make_slice 16 rows) _ e in
    length-decode_strings (length buf) rows buf [] vs e₁

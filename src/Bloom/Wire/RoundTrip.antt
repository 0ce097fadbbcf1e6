-- ===== src/Bloom/Wire/RoundTrip.antt =====
-- A filter is read back from its bytes, and whatever is read is well formed.
use uniqcol.Common.{
  >>=-eq-ok, All, All-drop, All-take, Bytes, [], ap, arith, drop, fail_if-eq-ok, false, get_or,
  length, length-take-le, ltb, not, ok, ok-injective, or_fail, or_fail-eq-ok, refl, subst, take, ℕ,
  ◌%◌, ◌++◌, ◌+◌, ◌/◌, ◌<◌, ◌==◌, ◌||◌, ◌∙◌, ◌∷◌, ◌≡◌, ◌≤◌,
}
use uniqcol.Binary.Varint.{uvarint-put_uvarint, uvarint_rest}
use uniqcol.Bloom.Wire.{marshal_binary, unmarshal_checked, unmarshal_binary}
use uniqcol.Bloom.Filter.Membership.{IsValid}
use uniqcol.Bloom.Filter.{Filter, u64_mod}
use uniqcol.Binary.Fixed.{uint_le-put_uint_le, uint_le-lt}
use uniqcol.Binary.{put_uint_le, uint_le, IsByte, put_uvarint, uvarint}

-- The three fixed fields, in front of anything.
fixed_fields :
    (m k n_added : ℕ) (tail : Bytes)
    → m < u64_mod
    → n_added < u64_mod
    → (ltb (length (put_uint_le 8 m ++ (k ∷ (put_uint_le 8 n_added ++ tail)))) 17 ≡ false)
      × (uint_le (take 8 (put_uint_le 8 m ++ (k ∷ (put_uint_le 8 n_added ++ tail)))) ≡ m)
      × (get_or (put_uint_le 8 m ++ (k ∷ (put_uint_le 8 n_added ++ tail))) 8 0 ≡ k)
      × (uint_le (take 8 (drop 9 (put_uint_le 8 m ++ (k ∷ (put_uint_le 8 n_added ++ tail)))))
          ≡ n_added)
      × (drop 17 (put_uint_le 8 m ++ (k ∷ (put_uint_le 8 n_added ++ tail))) ≡ tail)
unfolding put_uint_le
fixed_fields m k n_added tail hm hn =
    (ground arith, uint_le-put_uint_le 8 m hm, refl, uint_le-put_uint_le 8 n_added hn, refl)

-- The fields as `UnmarshalBinary` reads them from what `MarshalBinary` wrote.
unmarshal_binary_fields :
    (f : Filter)
    → f.m < u64_mod
    → f.n_added < u64_mod
    → length f.bits < u64_mod
    → unmarshal_binary (marshal_binary f)
      ≡ unmarshal_checked f.m f.k f.n_added (length f.bits) f.bits
unfolding unmarshal_binary marshal_binary
unmarshal_binary_fields f hm hn hb =
    let (long, m_back, k_back, n_back, tail_back) =
      fixed_fields f.m f.k f.n_added (put_uvarint (length f.bits) ++ f.bits) hm hn in
    rw (long, m_back, k_back, n_back, tail_back, uvarint-put_uvarint (length f.bits) f.bits hb)

-- A well-formed filter is read back from its bytes as it was, the count of additions included.
pub unmarshal_binary-marshal_binary :
    (f : Filter) → IsValid f → unmarshal_binary (marshal_binary f) ≡ ok f
unfolding unmarshal_checked
unmarshal_binary-marshal_binary f v =
    unmarshal_binary_fields f (omega arith) v.added_fits (omega (arith, v.sized)) ∙ ground arith

-- `(m + 7) / 8` wraps for the seven largest `m`: then a filter with no bits at all, whose other
-- fields are in range, is read back from the bytes that `MarshalBinary` makes of it.
pub unmarshal_binary_wraps :
    (f : Filter)
    → f.m < u64_mod
    → u64_mod ≤ f.m + 7
    → f.bits ≡ []
    → 1 ≤ f.k
    → f.k ≤ 30
    → f.n_added < u64_mod
    → unmarshal_binary (marshal_binary f) ≡ ok f
unfolding unmarshal_checked
unmarshal_binary_wraps f hm wraps none_set lo hi hn =
    unmarshal_binary_fields f hm hn (rw none_set (omega arith)) ∙ ground arith

unmarshal_checked-IsValid :
    (m k n_added bits_len : ℕ) (rest : Bytes) (f : Filter)
    → All IsByte rest
    → n_added < u64_mod
    → unmarshal_checked m k n_added bits_len rest ≡ ok f
    → f.m + 7 < u64_mod
    → IsValid f
unfolding unmarshal_checked
unmarshal_checked-IsValid m k n_added bits_len rest f h hn e hm =
    let (whole, e₁) = fail_if-eq-ok (not (length rest == bits_len)) _ _ e in
    let (pos, e₂) = fail_if-eq-ok (m == 0) _ _ e₁ in
    let (same, e₃) = fail_if-eq-ok (not (bits_len == (m + 7) % u64_mod / 8)) _ _ e₂ in
    let (range, e₄) = fail_if-eq-ok (ltb k 1 || ltb 30 k) _ _ e₃ in
    let built : record { m = m; k = k; bits = rest; n_added = n_added } ≡ f = ok-injective e₄ in
    let m_is : m ≡ f.m = ap (λ (g : Filter). g.m) built in
    subst IsValid built (record {
      m_pos = ground arith;
      m_fits = omega arith;
      k_pos = ground arith;
      k_max = ground arith;
      bytes = h;
      sized = ground arith;
      added_fits = hn;
    })

-- A filter that `UnmarshalBinary` accepts, from any list of bytes, is well formed, if `m + 7` does
-- not wrap.
pub unmarshal_binary-IsValid :
    (buf : Bytes) (f : Filter)
    → All IsByte buf
    → unmarshal_binary buf ≡ ok f
    → f.m + 7 < u64_mod
    → IsValid f
unfolding unmarshal_binary
unmarshal_binary-IsValid buf f h e hm =
    let (long, e₁) = fail_if-eq-ok (ltb (length buf) 17) _ _ e in
    let ((bits_len, rest), read, e₂) = >>=-eq-ok (or_fail (uvarint (drop 17 buf)) _) _ e₁ in
    unmarshal_checked-IsValid _ (get_or buf 8 0) _ bits_len rest f
      (uvarint_rest IsByte (drop 17 buf) bits_len rest (or_fail-eq-ok _ _ read)
        (All-drop IsByte 17 buf h))
      (uint_le-lt 8 (take 8 (drop 9 buf)) (length-take-le 8 (drop 9 buf))
        (All-take IsByte 8 (drop 9 buf) (All-drop IsByte 9 buf h)))
      e₂ hm

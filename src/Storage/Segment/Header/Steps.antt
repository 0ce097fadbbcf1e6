-- ===== src/Storage/Segment/Header/Steps.antt =====
-- The fields in front of the columns, read from a reader and parsed from a buffer.
use uniqcol.Common.{
  >>=-eq-ok, Bool-cases, Bytes, arith, drop, fail_if-eq-ok, false, get_or, inl, inr, length,
  length-drop, ltb, ltb→le, ok, ok-injective, or_fail, or_fail-eq-ok, refl, some, subst, take, true,
  ℕ, ◌==◌, ◌∙◌, ◌≡◌, ◌≤◌,
}
use uniqcol.Storage.Segment.Parse.{take_prefixed, parse_pk_name, parse_flags}
use uniqcol.Storage.Segment.Header.{make_bytes, read_prefixed, read_pk_name, read_flags}
use uniqcol.Storage.Codec.{max_alloc}
use uniqcol.Binary.Varint.{uvarint_shorter}
use uniqcol.Binary.{uvarint}
use uniqcol.Storage.Segment.{Part, has_flag, flag_has_pk_name}

pub make_bytes-ok : (n : ℕ) → n ≤ max_alloc → make_bytes n ≡ ok tt
unfolding make_bytes
make_bytes-ok n h = ground arith

-- What was cut off the front of a buffer that has room for it.
abbrev pub Rest : Bytes → Type 0
Rest buf = length buf ≤ max_alloc

read_prefixed_lem :
    (a b : Part) (buf : Bytes) (n : ℕ) (rest : Bytes)
    → uvarint buf ≡ some (n, rest)
    → n ≤ max_alloc
    → ltb (length rest) n ≡ false
    → read_prefixed a b buf ≡ ok (take n rest, drop n rest)
unfolding read_prefixed
read_prefixed_lem a b buf n rest found small within = rw (found, make_bytes-ok n small, within) refl

pub take_prefixed-read_prefixed :
    (a b : Part) (buf : Bytes) (p : Bytes × Bytes)
    → Rest buf
    → take_prefixed a b buf ≡ ok p
    → (read_prefixed a b buf ≡ ok p) × Rest p.1
unfolding take_prefixed
take_prefixed-read_prefixed a b buf p room e =
    let ((n, rest), found, e₁) = >>=-eq-ok (or_fail (uvarint buf) _) _ e in
    let (within, e₂) = fail_if-eq-ok (ltb (length rest) n) _ _ e₁ in
    let at = or_fail-eq-ok (uvarint buf) _ found in
    let less = uvarint_shorter buf n rest at in
    let fits = ltb→le _ _ within in
    subst (λ q. (read_prefixed a b buf ≡ ok q) × Rest q.1) (ok-injective e₂)
      (read_prefixed_lem a b buf n rest at (omega arith) within, omega (arith, length-drop n rest))

parse_pk_name-read_pk_name :
    (flags : ℕ) (buf : Bytes) (p : Bytes × Bytes)
    → Rest buf
    → parse_pk_name flags buf ≡ ok p
    → (read_pk_name flags buf ≡ ok p) × Rest p.1
unfolding parse_pk_name read_pk_name
parse_pk_name-read_pk_name flags buf p room e =
    elim (Bool-cases (has_flag flags flag_has_pk_name)) [
      | inl named ↦
          rw named
            (take_prefixed-read_prefixed Part.pk_name_len Part.pk_name buf p room (rw named at e))
      | inr unnamed ↦ rw unnamed (
        (rw unnamed at e),
        subst (λ (q : Bytes × Bytes). Rest q.1) (ok-injective (rw unnamed at e)) room,
      )
    ]

read_flags_two :
    (version : ℕ) (buf : Bytes) (n : ℕ) (rest : Bytes)
    → (version == 2) ≡ true
    → uvarint buf ≡ some (n, rest)
    → n ≤ max_alloc
    → (n == 0) ≡ false
    → ltb (length rest) n ≡ false
    → read_flags version buf ≡ read_pk_name (get_or rest 0 0) (drop n rest)
unfolding read_flags
read_flags_two version buf n rest two found small some_flags within =
    rw (two, found, some_flags, make_bytes-ok n small, within) refl

pub parse_flags-read_flags :
    (version : ℕ) (buf : Bytes) (p : ℕ × Bytes × Bytes)
    → Rest buf
    → parse_flags version buf ≡ ok p
    → (read_flags version buf ≡ ok (p.1, p.2)) × Rest p.2
unfolding parse_flags read_flags
parse_flags-read_flags version buf p room e = elim (Bool-cases (version == 2)) [
  | inl two ↦
      let ((n, rest), found, e₁) = >>=-eq-ok (or_fail (uvarint buf) _) _ (rw two at e) in
      let (some_flags, e₂) = fail_if-eq-ok (n == 0) _ _ e₁ in
      let (within, e₃) = fail_if-eq-ok (ltb (length rest) n) _ _ e₂ in
      let ((name, rest'), named, e₄) =
        >>=-eq-ok (parse_pk_name (get_or rest 0 0) (drop n rest)) _ e₃ in
      let at = or_fail-eq-ok (uvarint buf) _ found in
      let less = uvarint_shorter buf n rest at in
      let fits = ltb→le _ _ within in
      let (read_it, room') =
        parse_pk_name-read_pk_name (get_or rest 0 0) (drop n rest) (name, rest')
          (omega (arith, length-drop n rest)) named in
      subst (λ (q : ℕ × Bytes × Bytes). (read_flags version buf ≡ ok (q.1, q.2)) × Rest q.2)
        (ok-injective e₄)
        (read_flags_two version buf n rest two at (omega arith) some_flags within ∙ read_it, room')
  | inr other ↦
      subst (λ (q : ℕ × Bytes × Bytes). (read_flags version buf ≡ ok (q.1, q.2)) × Rest q.2)
        (ok-injective (rw other at e)) (rw (read_flags, other) refl, room)
]

-- ===== src/Storage/Codec/Values.antt =====
-- A value that was put is taken back, and a taken value uses up input.
use uniqcol.Common.{
  Bytes, Option-cases, append_assoc, arith, drop-append_length, inl, inr, length, length-append,
  length-drop, le→ltb, ok, stuck, take-append_length, ℕ, ◌*◌, ◌++◌, ◌<◌, ◌≡◌, ◌≢◌, ◌≤◌,
}
use uniqcol.Binary.{IsU64, put_uvarint, uvarint, put_uint_le}
use uniqcol.Binary.Varint.{uvarint-put_uvarint, uvarint_shorter, length-put_uvarint}
use uniqcol.Binary.Fixed.{uint_le-put_uint_le}
use uniqcol.Storage.Codec.{
  Fault, Error, put_fixed, put_string, take_fixed, take_string, max_alloc, make_slice,
}

pub take_fixed-put_fixed :
    (wrap : Fault → Error) (x : ℕ) (rest : Bytes)
    → IsU64 x
    → take_fixed wrap (put_fixed x ++ rest) ≡ ok (x, rest)
unfolding take_fixed put_fixed put_uint_le
take_fixed-put_fixed wrap x rest h = ground (arith, uint_le-put_uint_le 8 x)

pub take_string-put_string :
    (wrap : Fault → Error) (s rest : Bytes)
    → IsU64 (length s)
    → take_string wrap (put_string s ++ rest) ≡ ok (s, rest)
unfolding take_string put_string
take_string-put_string wrap s rest h = rw (
  append_assoc (put_uvarint (length s)) s rest,
  uvarint-put_uvarint (length s) (s ++ rest) h,
  le→ltb (length (s ++ rest)) (length s) (omega (arith, length-append s rest)),
  take-append_length s rest,
  drop-append_length s rest,
)

pub take_fixed_shorter :
    (wrap : Fault → Error) (buf : Bytes) (v : ℕ) (rest : Bytes)
    → take_fixed wrap buf ≡ ok (v, rest)
    → length rest < length buf
unfolding take_fixed
take_fixed_shorter wrap buf v rest e = ground (arith, length-drop 8 buf)

pub take_string_shorter :
    (wrap : Fault → Error) (buf v rest : Bytes)
    → take_string wrap buf ≡ ok (v, rest)
    → length rest < length buf
unfolding take_string
take_string_shorter wrap buf v rest e = elim (Option-cases (uvarint buf)) [
  | inl none_left ↦ cc (rw none_left at e)
  | inr ((n, more), found) ↦
      ground (arith, rw found at e, uvarint_shorter buf n more found, length-drop n more)
]

pub take_fixed-ne-stuck : (wrap : Fault → Error) (buf : Bytes) → take_fixed wrap buf ≢ stuck
unfolding take_fixed
take_fixed-ne-stuck wrap buf e = ground arith

pub take_string-ne-stuck : (wrap : Fault → Error) (buf : Bytes) → take_string wrap buf ≢ stuck
unfolding take_string
take_string-ne-stuck wrap buf e = ground arith

pub make_slice-ne-stuck : (size n : ℕ) → make_slice size n ≢ stuck
unfolding make_slice
make_slice-ne-stuck size n e = ground arith

pub make_slice-eq-ok : (size n : ℕ) {u : Unit {0}} → make_slice size n ≡ ok u → size * n ≤ max_alloc
unfolding make_slice
make_slice-eq-ok size n e = ground arith

pub fits_make_slice : (size n : ℕ) → size * n ≤ max_alloc → make_slice size n ≡ ok tt
unfolding make_slice
fits_make_slice size n h = rw (le→ltb max_alloc (size * n) h)

pub length-put_string : (s : Bytes) → 1 ≤ length (put_string s)
unfolding put_string
length-put_string s =
    omega (arith, length-append (put_uvarint (length s)) s, (length-put_uvarint (length s)).0)

-- ===== src/Binary/Fixed.antt =====
-- A fixed-width number is read back from the bytes that it was written to.
use uniqcol.Common.{
  All, Bytes, [], ap, arith, length, refl, suc, zero, ℕ, ◌/◌, ◌<◌, ◌^◌, ◌∷◌, ◌≡◌, ◌≤◌,
}
use uniqcol.Binary.{IsByte, put_uint_le, uint_le}

pub length-put_uint_le : (n x : ℕ) → length (put_uint_le n x) ≡ n
unfolding put_uint_le
length-put_uint_le zero x = refl
length-put_uint_le (suc n) x = ap suc (length-put_uint_le n (x / 256))

pub uint_le-put_uint_le : (n x : ℕ) → x < 256 ^ n → uint_le (put_uint_le n x) ≡ x
unfolding uint_le put_uint_le
uint_le-put_uint_le zero x h = omega arith
uint_le-put_uint_le (suc n) x h = omega (arith, uint_le-put_uint_le n (x / 256) (omega arith))

pub put_uint_le-IsByte : (n x : ℕ) → All IsByte (put_uint_le n x)
unfolding put_uint_le
put_uint_le-IsByte zero x = tt
put_uint_le-IsByte (suc n) x = (omega arith, put_uint_le-IsByte n (x / 256))

-- `n` bytes at most make a number of `n` bytes.
pub uint_le-lt : (n : ℕ) (buf : Bytes) → length buf ≤ n → All IsByte buf → uint_le buf < 256 ^ n
unfolding uint_le
uint_le-lt zero [] h b = omega arith
uint_le-lt zero (x ∷ xs) h b = absurd (omega arith)
uint_le-lt (suc n) [] h b = omega (arith, uint_le-lt n [] (omega arith) tt)
uint_le-lt (suc n) (x ∷ xs) h (b, bs) = omega (arith, uint_le-lt n xs (omega arith) bs)

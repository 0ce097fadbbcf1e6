-- ===== src/Binary.antt =====
-- What the program uses of Go's encoding/binary: variable-length and fixed-width integers.
-- A byte slice is a list of numbers below 256; `data[n:]` is the list that is left.
pub mod Varint
pub mod Fixed
use uniqcol.Common.{
  Bytes, Option, [], if◌then◌else◌, ltb, none, some, suc, zero, ℕ, ◌%◌, ◌&&◌, ◌*◌, ◌+◌, ◌/◌, ◌<◌,
  ◌==◌, ◌∷◌,
}

abbrev pub IsByte : ℕ → Type 0
IsByte b = b < 256

abbrev pub IsU64 : ℕ → Type 0
IsU64 x = x < 0x1_0000_0000_0000_0000

-- `binary.PutUvarint`. The buffer has ten bytes, so ten rounds are the fuel.
unfoldable pub put_uvarint_loop : ℕ → ℕ → Bytes
put_uvarint_loop zero x = []
put_uvarint_loop (suc fuel) x =
    let rest = put_uvarint_loop fuel (x / 128) in
    if ltb x 128 then x ∷ [] else (x % 128 + 128) ∷ rest

unfoldable pub put_uvarint : ℕ → Bytes
unfolding put_uvarint_loop
put_uvarint x = put_uvarint_loop 10 x

-- `binary.Uvarint`, with what follows the number; `none` is a count `n <= 0`. `weight` is
-- `1 << s`; the bits that `|` joins do not overlap.
unfoldable pub uvarint_loop : ℕ → ℕ → ℕ → Bytes → Option (ℕ × Bytes)
uvarint_loop i x weight [] = none
uvarint_loop i x weight (b ∷ rest) =
    let more = uvarint_loop (i + 1) (x + b % 128 * weight) (weight * 128) rest in
    if i == 10
    then none
    else if ltb b 128
    then if i == 9 && ltb 1 b then none else some (x + b * weight, rest)
    else more

unfoldable pub uvarint : Bytes → Option (ℕ × Bytes)
unfolding uvarint_loop
uvarint buf = uvarint_loop 0 0 1 buf

-- `binary.LittleEndian.PutUint16` and `PutUint64`: `n` bytes, the lowest first.
unfoldable pub put_uint_le : ℕ → ℕ → Bytes
put_uint_le zero x = []
put_uint_le (suc n) x = (x % 256) ∷ put_uint_le n (x / 256)

-- `binary.LittleEndian.Uint16` and `Uint64`, on exactly the bytes of the number.
unfoldable pub uint_le : Bytes → ℕ
uint_le [] = 0
uint_le (b ∷ rest) = b + 256 * uint_le rest

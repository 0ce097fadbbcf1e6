-- ===== src/Binary/Varint.antt =====
-- A number written by `put_uvarint` is read back by `uvarint`, and each read takes a byte.
use uniqcol.Common.{
  All, Bool, Bytes, Option, [], ap, arith, false, if◌then◌else◌, length, ltb, none, some, subst,
  suc, true, zero, ℕ, ◌%◌, ◌&&◌, ◌*◌, ◌++◌, ◌+◌, ◌/◌, ◌<◌, ◌==◌, ◌^◌, ◌∷◌, ◌≡◌, ◌≤◌,
}
use uniqcol.Binary.{IsByte, IsU64, put_uvarint_loop, put_uvarint, uvarint_loop, uvarint}
use native.Mathlib.Nat.{div-add-mod}

-- The lowest seven bits of `x` and the rest, both times `p`.
split_seven : (x p : ℕ) → x % 128 * p + x / 128 * (p * 128) ≡ x * p
split_seven x p = omega (arith, ap (λ (t : ℕ). t * p) (div-add-mod x 128))

-- With `k` bytes to come behind the `i`-th, what is left of the number is below `2 * 128 ^ k`.
uvarint_loop-put_uvarint_loop :
    (k i acc x p : ℕ) (rest : Bytes)
    → i + k ≡ 9
    → x < 2 * 128 ^ k
    → uvarint_loop i acc p (put_uvarint_loop (suc k) x ++ rest) ≡ some (acc + x * p, rest)
unfolding uvarint_loop put_uvarint_loop
uvarint_loop-put_uvarint_loop zero i acc x p rest hi hx = ground arith
uvarint_loop-put_uvarint_loop (suc k) i acc x p rest hi hx = ground (
  arith,
  split_seven x p,
  uvarint_loop-put_uvarint_loop k (i + 1) (acc + x % 128 * p) (x / 128) (p * 128) rest (omega arith)
      (omega arith),
)

pub uvarint-put_uvarint :
    (x : ℕ) (rest : Bytes) → IsU64 x → uvarint (put_uvarint x ++ rest) ≡ some (x, rest)
unfolding uvarint put_uvarint
uvarint-put_uvarint x rest h = ground (arith, uvarint_loop-put_uvarint_loop 9 0 0 x 1 rest)

put_uvarint_loop-IsByte : (n x : ℕ) → All IsByte (put_uvarint_loop n x)
unfolding put_uvarint_loop
put_uvarint_loop-IsByte zero x = tt
put_uvarint_loop-IsByte (suc n) x = ground (arith, put_uvarint_loop-IsByte n (x / 128))

pub put_uvarint-IsByte : (x : ℕ) → All IsByte (put_uvarint x)
unfolding put_uvarint
put_uvarint-IsByte x = put_uvarint_loop-IsByte 10 x

length-put_uvarint_loop : (n x : ℕ) → length (put_uvarint_loop n x) ≤ n
unfolding put_uvarint_loop
length-put_uvarint_loop zero x = omega arith
length-put_uvarint_loop (suc n) x = ground (arith, length-put_uvarint_loop n (x / 128))

pub length-put_uvarint : (x : ℕ) → (1 ≤ length (put_uvarint x)) × (length (put_uvarint x) ≤ 10)
unfolding put_uvarint put_uvarint_loop
length-put_uvarint x = (ground arith, ground (arith, length-put_uvarint_loop 9 (x / 128)))

uvarint_loop_shorter :
    (buf : Bytes) (i x p v : ℕ) (rest : Bytes)
    → uvarint_loop i x p buf ≡ some (v, rest)
    → length rest < length buf
unfolding uvarint_loop
uvarint_loop_shorter [] i x p v rest e = cc
uvarint_loop_shorter (b ∷ bs) i x p v rest e =
    ground (arith, uvarint_loop_shorter bs (i + 1) (x + b % 128 * p) (p * 128) v rest)

pub uvarint_shorter :
    (buf : Bytes) (v : ℕ) (rest : Bytes) → uvarint buf ≡ some (v, rest) → length rest < length buf
unfolding uvarint
uvarint_shorter buf v rest = uvarint_loop_shorter buf 0 0 1 v rest

-- The bytes behind the number, if there is one.
abbrev AllRest : (ℕ → Type 0) → Option (ℕ × Bytes) → Type 0
AllRest P none = Unit
AllRest P (some (v, rest)) = All P rest

AllRest-if :
    (P : ℕ → Type 0) (b : Bool) (r s : Option (ℕ × Bytes))
    → AllRest P r
    → AllRest P s
    → AllRest P (if b then r else s)
AllRest-if P true r s h k = h
AllRest-if P false r s h k = k

uvarint_loop_rest :
    (P : ℕ → Type 0) (buf : Bytes) (i x p : ℕ) → All P buf → AllRest P (uvarint_loop i x p buf)
unfolding uvarint_loop
uvarint_loop_rest P [] i x p h = tt
uvarint_loop_rest P (b ∷ bs) i x p (h, hs) = AllRest-if P (i == 10) _ _ tt (
    AllRest-if P (ltb b 128) _ _ (AllRest-if P (i == 9 && ltb 1 b) _ _ tt hs)
      (uvarint_loop_rest P bs (i + 1) (x + b % 128 * p) (p * 128) hs))

-- What follows the number is a part of the input.
pub uvarint_rest :
    (P : ℕ → Type 0) (buf : Bytes) (v : ℕ) (rest : Bytes)
    → uvarint buf ≡ some (v, rest)
    → All P buf
    → All P rest
unfolding uvarint
uvarint_rest P buf v rest e h = subst (AllRest P) e (uvarint_loop_rest P buf 0 0 1 h)

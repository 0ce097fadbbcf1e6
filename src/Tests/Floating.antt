-- ===== src/Tests/Floating.antt =====
-- Fixed-point numbers, in thousandths and with a sign (`true` for a minus), in the place of float64.
-- The conversion of a negative one to an integer wraps.
use uniqcol.Common.{
  Bool, arith, false, if◌then◌else◌, ltb, ltb→le, not, refl, true, ℕ, ◌%◌, ◌*◌, ◌+◌, ◌-◌, ◌/◌, ◌==◌,
  ◌≡◌, ◌≤◌,
}
use uniqcol.Bloom.Sizing.{Floats}
use uniqcol.Bloom.Sizing.Laws.{IsIeee, optimal_size}

abbrev pub Fixed : Type 0
Fixed = Bool × ℕ

abbrev pub negated : Bool → Bool → Bool
negated a b = if a then not b else b

abbrev fixed_lt : Fixed → Fixed → Bool
fixed_lt (false, x) (false, y) = ltb x y
fixed_lt (true, x) (true, y) = ltb y x
fixed_lt (true, x) (false, y) = not (x + y == 0)
fixed_lt (false, x) (true, y) = false

-- To a multiple of a thousand, up.
abbrev fixed_ceil : Fixed → Fixed
fixed_ceil (false, x) = (false, (x + 999) / 1000 * 1000)
fixed_ceil (true, x) = (true, x / 1000 * 1000)

abbrev fixed_to_uint64 : Fixed → ℕ
fixed_to_uint64 (false, x) = x / 1000
fixed_to_uint64 (true, x) =
    (0x1_0000_0000_0000_0000 - x / 1000 % 0x1_0000_0000_0000_0000) % 0x1_0000_0000_0000_0000

abbrev pub fixed_point : Floats
fixed_point = record {
  Float = Fixed;
  of_uint64 = λ n. (false, n * 1000);
  to_uint64 = fixed_to_uint64;
  to_uint8 = λ x. fixed_to_uint64 x % 256;
  neg = λ x. (not x.0, x.1);
  mul = λ x y. (negated x.0 y.0, x.1 * y.1 / 1000);
  div = λ x y. (negated x.0 y.0, x.1 * 1000 / y.1);
  log = λ x. (true, 4605);
  ceil = fixed_ceil;
  round = λ x. (x.0, (x.1 + 500) / 1000 * 1000);
  lt = fixed_lt;
  le = λ x y. not (fixed_lt y x);
  ln2 = (false, 693);
  max_int64 = (false, 0x8000_0000_0000_0000 * 1000);
}

-- A negative number is far from an int64: uint64(-5.0) is 2 ^ 64 - 5.
wrapped : fixed_to_uint64 (true, 5000) ≡ 0xffff_ffff_ffff_fffb
wrapped = refl

to_uint8_range :
    (y : ℕ)
    → ltb ((y + 500) / 1000 * 1000) 1000 ≡ false
    → ltb 30000 ((y + 500) / 1000 * 1000) ≡ false
    → (1 ≤ (y + 500) / 1000 * 1000 / 1000 % 256) × ((y + 500) / 1000 * 1000 / 1000 % 256 ≤ 30)
to_uint8_range y lo hi =
    omega
      (arith, ltb→le ((y + 500) / 1000 * 1000) 1000 lo, ltb→le 30000 ((y + 500) / 1000 * 1000) hi)

doubly_negated : (b : Bool) → not b ≡ false → b ≡ true
doubly_negated b h = ground arith

number : (x : Fixed) → not (fixed_lt x x) ≡ true
number (false, x) = ground arith
number (true, x) = ground arith

to_uint64_le :
    (x : Fixed)
    → fixed_lt (false, 0) x ≡ true
    → fixed_lt (false, 0x8000_0000_0000_0000 * 1000) x ≡ false
    → fixed_to_uint64 (fixed_ceil x) ≤ 0x8000_0000_0000_0000
to_uint64_le (false, x) positive h = omega (arith, ltb→le 0x1f40000000000000000 x h)
to_uint64_le (true, x) positive h = cc

pub fixed_point-IsIeee : IsIeee fixed_point
fixed_point-IsIeee = record {
  not_le-lt = λ x y nx ny h. doubly_negated (fixed_lt y x) h;
  of_uint64-number = λ n. number (false, n * 1000);
  size-number = λ n p above below. number (optimal_size fixed_point n p);
  to_uint64-le = to_uint64_le;
  to_uint8-range = λ m n hm hn lo hi. to_uint8_range _ lo hi;
}

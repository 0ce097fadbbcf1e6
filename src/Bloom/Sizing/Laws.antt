-- ===== src/Bloom/Sizing/Laws.antt =====
-- A filter that `New` builds is well formed and empty, with the documented behaviour of float64 that
-- this rests on.
use uniqcol.Common.{
  All-replicate, Bool, Bool-cases, arith, fail_if-eq-ok, false, get_or, inl, inr, length-replicate,
  ltb, not, ok, ok-injective, refl, replicate, subst, suc, true, zero, ℕ, ◌%◌, ◌+◌, ◌/◌, ◌<◌, ◌==◌,
  ◌^◌, ◌||◌, ◌≡◌, ◌≤◌,
}
use uniqcol.Binary.{IsByte}
use uniqcol.Bloom.Sizing.{Floats, build, clamp_k, at_least_one, new}
use uniqcol.Bloom.Filter.Membership.{IsValid}
use uniqcol.Bloom.Filter.History.{IsEmpty}
use uniqcol.Bloom.Filter.{Filter, bit_clear, u64_mod}
use Prim.Native.Nat.{bit_and-bitwise}

-- `-n * math.Log(p) / (ln2 * ln2)`
abbrev pub optimal_size : (fl : Floats) → ℕ → fl.Float → fl.Float
optimal_size fl n p = fl.div (fl.mul (fl.neg (fl.of_uint64 n)) (fl.log p)) (fl.mul fl.ln2 fl.ln2)

-- A NaN is the only float that is not below or equal to itself.
abbrev pub IsNumber : (fl : Floats) → fl.Float → Type 0
IsNumber fl x = fl.le x x ≡ true

pub record IsIeee (fl : Floats) : Type 0 where
  -- Of two numbers, one is below the other or equal to it.
  pub not_le-lt :
      (x y : fl.Float) → IsNumber fl x → IsNumber fl y → fl.le x y ≡ false → fl.lt y x ≡ true
  -- An integer is converted to a number.
  pub of_uint64-number : (n : ℕ) → IsNumber fl (fl.of_uint64 n)
  -- The logarithm of a number between 0 and 1 is a number, and so are its product with an integer and
  -- the quotient by the square of `math.Ln2`.
  pub size-number :
      (n : ℕ) (p : fl.Float)
      → fl.lt (fl.of_uint64 0) p ≡ true
      → fl.lt p (fl.of_uint64 1) ≡ true
      → IsNumber fl (optimal_size fl n p)
  -- A positive float that is not above `float64(math.MaxInt64)`, which is 2 ^ 63, is rounded up and
  -- converted to an integer that is not above 2 ^ 63. Nothing is assumed of the conversion of a
  -- negative float or of a NaN.
  pub to_uint64-le :
      (x : fl.Float)
      → fl.lt (fl.of_uint64 0) x ≡ true
      → fl.lt fl.max_int64 x ≡ false
      → fl.to_uint64 (fl.ceil x) ≤ 0x8000_0000_0000_0000
  -- The quotient of two positive integers, scaled and rounded, is a number: if it is not below 1 and
  -- not above 30, its conversion lies between them.
  pub to_uint8-range :
      (m n : ℕ)
      → 0 < m
      → 0 < n
      → fl.lt (fl.round (fl.mul (fl.div (fl.of_uint64 m) (fl.of_uint64 n)) fl.ln2)) (fl.of_uint64 1)
        ≡ false
      → fl.lt
          (fl.of_uint64 30)
          (fl.round (fl.mul (fl.div (fl.of_uint64 m) (fl.of_uint64 n)) fl.ln2))
        ≡ false
      → (1 ≤ fl.to_uint8 (fl.round (fl.mul (fl.div (fl.of_uint64 m) (fl.of_uint64 n)) fl.ln2)))
        × (fl.to_uint8 (fl.round (fl.mul (fl.div (fl.of_uint64 m) (fl.of_uint64 n)) fl.ln2)) ≤ 30)

get_or-replicate : (n i : ℕ) → get_or (replicate {A = ℕ} n 0) i 0 ≡ 0
get_or-replicate zero i = refl
get_or-replicate (suc n) zero = refl
get_or-replicate (suc n) (suc i) = get_or-replicate n i

bit_clear-zeros : (n x : ℕ) → bit_clear (replicate n 0) x ≡ true
unfolding bit_clear
bit_clear-zeros n x = rw (get_or-replicate n (x / 8), bit_and-bitwise 0 (2 ^ (x % 8)))

both_false : (a b : Bool) → a || b ≡ false → (a ≡ false) × (b ≡ false)
both_false a b h = ground arith

both_true : (a b : Bool) → not a || not b ≡ false → (a ≡ true) × (b ≡ true)
both_true a b h = ground arith

pos-of_ne : (n : ℕ) → (n == 0) ≡ false → 0 < n
pos-of_ne n h = ground arith

module _ (fl : Floats) (ieee : IsIeee fl) where
  build_lem :
      (m k : ℕ) (f : Filter)
      → 0 < m
      → m ≤ 0x8000_0000_0000_0000
      → 1 ≤ k
      → k ≤ 30
      → build fl m k ≡ ok f
      → IsValid f × IsEmpty f × (f.n_added ≡ 0)
  unfolding build
  build_lem m k f hm fits lo hi e =
      elim (Bool-cases (ltb 0x1_0000_0000_0000 ((m + 7) % u64_mod / 8))) [
        | inl large ↦ cc (rw large at e)
        | inr small ↦
            subst (λ (g : Filter). IsValid g × IsEmpty g × (g.n_added ≡ 0))
              (ok-injective (rw small at e))
              (
                record {
                  m_pos = hm;
                  m_fits = omega arith;
                  k_pos = lo;
                  k_max = hi;
                  bytes = All-replicate IsByte ((m + 7) % u64_mod / 8) 0 (omega arith);
                  sized = omega (arith, length-replicate {0} {A = ℕ} ((m + 7) % u64_mod / 8) 0);
                  added_fits = omega arith;
                },
                bit_clear-zeros ((m + 7) % u64_mod / 8),
                refl,
              )
      ]

  clamp_k_range :
      (m n : ℕ)
      → 0 < m
      → 0 < n
      → (1 ≤ clamp_k fl (fl.round (fl.mul (fl.div (fl.of_uint64 m) (fl.of_uint64 n)) fl.ln2)))
        × (clamp_k fl (fl.round (fl.mul (fl.div (fl.of_uint64 m) (fl.of_uint64 n)) fl.ln2)) ≤ 30)
  unfolding clamp_k
  clamp_k_range m n hm hn = ground (arith, ieee.to_uint8-range m n hm hn)

  at_least_one_range :
      (m : ℕ)
      → m ≤ 0x8000_0000_0000_0000
      → (0 < at_least_one fl m) × (at_least_one fl m ≤ 0x8000_0000_0000_0000)
  unfolding at_least_one
  at_least_one_range m h = ground arith

  -- Behind the guards of `New`, the size is positive, and its conversion in range.
  converted_le :
      (n : ℕ) (p : fl.Float)
      → fl.lt (fl.of_uint64 0) p ≡ true
      → fl.lt p (fl.of_uint64 1) ≡ true
      → fl.le (optimal_size fl n p) (fl.of_uint64 0) ≡ false
      → fl.lt fl.max_int64 (optimal_size fl n p) ≡ false
      → fl.to_uint64 (fl.ceil (optimal_size fl n p)) ≤ 0x8000_0000_0000_0000
  converted_le n p above below positive fits =
      ieee.to_uint64-le (optimal_size fl n p)
        (ieee.not_le-lt (optimal_size fl n p) (fl.of_uint64 0) (ieee.size-number n p above below)
          (ieee.of_uint64-number 0) positive)
        fits

  -- A filter that `New` returns is well formed, has no bit set and counts no addition. The float64
  -- operations are assumed to be as `IsIeee` says.
  pub new-IsValid :
      (expected : ℕ) (p : fl.Float) (f : Filter)
      → new fl expected p ≡ ok f
      → IsValid f × IsEmpty f × (f.n_added ≡ 0)
  unfolding new
  new-IsValid expected p f e =
      let (some_items, e₁) = fail_if-eq-ok (expected == 0) _ _ e in
      let (in_unit, e₂) = fail_if-eq-ok _ _ _ e₁ in
      let (above, below) = both_true _ _ in_unit in
      let (in_range, e₃) = fail_if-eq-ok _ _ _ e₂ in
      let (positive, fits) = both_false _ _ in_range in
      let (m_lo, m_hi) = at_least_one_range _ (converted_le expected p above below positive fits) in
      let (k_lo, k_hi) = clamp_k_range _ expected m_lo (pos-of_ne expected some_items) in
      build_lem _ _ f m_lo m_hi k_lo k_hi e₃

-- ===== src/Bloom/Sizing.antt =====
-- `New` of bloom/bloom.go. Floating point is a parameter: a type with the operations of Go's float64
-- and package math that `New` calls.
use uniqcol.Bloom.Filter.{Filter, u64_mod}
pub mod Laws
use uniqcol.Common.{
  Bool, Result, fail_if, if◌then◌else◌, ltb, not, ok, panic, replicate, ℕ, ◌%◌, ◌+◌, ◌/◌, ◌==◌,
  ◌>>◌, ◌||◌,
}

pub data Error : Type 0 where
  expected_items target_fpr m_range : Error

pub record Floats : Type 1 where
  pub Float : Type 0
  pub of_uint64 : ℕ → Float
  pub to_uint64 : Float → ℕ
  pub to_uint8 : Float → ℕ
  pub neg : Float → Float
  pub mul : Float → Float → Float
  pub div : Float → Float → Float
  pub log : Float → Float
  pub ceil : Float → Float
  pub round : Float → Float
  pub lt : Float → Float → Bool
  pub le : Float → Float → Bool
  pub ln2 : Float
  pub max_int64 : Float

module _ (fl : Floats) where
  open fl use {
    Float, of_uint64, to_uint64, to_uint8, neg, mul, div, log, ceil, round, lt, le, ln2, max_int64,
  }

  -- The switch on `kFloat`, with `minK` 1 and `maxK` 30.
  unfoldable pub clamp_k : Float → ℕ
  clamp_k k_float =
      if lt k_float (of_uint64 1)
      then 1
      else if lt (of_uint64 30) k_float
      then 30
      else to_uint8 k_float

  -- `if m == 0 { m = 1 }`
  unfoldable pub at_least_one : ℕ → ℕ
  at_least_one m = if m == 0 then 1 else m

  -- `make` of a byte slice panics past the address space; it comes with zeros.
  unfoldable pub build : ℕ → ℕ → Result Error Filter
  build m k =
      let size = (m + 7) % u64_mod / 8 in
      let bits = replicate size 0 in
      if ltb 0x1_0000_0000_0000 size
      then panic
      else ok (record { m = m; k = k; bits = bits; n_added = 0 })

  unfoldable pub new : ℕ → Float → Result Error Filter
  unfolding clamp_k at_least_one build
  new expected p = do
    fail_if (expected == 0) Error.expected_items
    fail_if (not (lt (of_uint64 0) p) || not (lt p (of_uint64 1))) Error.target_fpr
    let n = of_uint64 expected
    let m_float = div (mul (neg n) (log p)) (mul ln2 ln2)
    fail_if (le m_float (of_uint64 0) || lt max_int64 m_float) Error.m_range
    let m = at_least_one (to_uint64 (ceil m_float))
    build m (clamp_k (round (mul (div (of_uint64 m) n) ln2)))

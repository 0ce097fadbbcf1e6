-- ===== src/Query/Compare.antt =====
-- The comparisons and the scans of query/exec.go. An int64 is its 64 bits, in two's complement.
use uniqcol.Common.{
  Bool, Bytes, List, [], bytes_eq, false, if◌then◌else◌, leb, ltb, map, not, true, ℕ, ◌%◌, ◌+◌,
  ◌==◌, ◌∷◌,
}
use uniqcol.Query.{FilterOp, FloatOps, eq, neq, lt, gt, lte, gte}

-- The bits with the sign bit flipped: the number plus 2 ^ 63, so that the order is that of naturals.
abbrev pub biased : ℕ → ℕ
biased x = (x + 0x8000_0000_0000_0000) % 0x1_0000_0000_0000_0000

unfoldable pub compare_int64 : ℕ → FilterOp → ℕ → Bool
compare_int64 v eq w = v == w
compare_int64 v neq w = not (v == w)
compare_int64 v lt w = ltb (biased v) (biased w)
compare_int64 v gt w = ltb (biased w) (biased v)
compare_int64 v lte w = leb (biased v) (biased w)
compare_int64 v gte w = leb (biased w) (biased v)

unfoldable pub compare_float64 : FloatOps → ℕ → FilterOp → ℕ → Bool
compare_float64 fl v eq w = fl.float_eq v w
compare_float64 fl v neq w = not (fl.float_eq v w)
compare_float64 fl v lt w = fl.float_lt v w
compare_float64 fl v gt w = fl.float_lt w v
compare_float64 fl v lte w = fl.float_le v w
compare_float64 fl v gte w = fl.float_le w v

-- The order of Go's strings: byte by byte, a prefix first.
unfoldable pub bytes_lt : Bytes → Bytes → Bool
bytes_lt a [] = false
bytes_lt [] (y ∷ ys) = true
bytes_lt (x ∷ xs) (y ∷ ys) = if x == y then bytes_lt xs ys else ltb x y

unfoldable pub compare_string : Bytes → FilterOp → Bytes → Bool
unfolding bytes_lt bytes_eq
compare_string v eq w = bytes_eq v w
compare_string v neq w = not (bytes_eq v w)
compare_string v lt w = bytes_lt v w
compare_string v gt w = bytes_lt w v
compare_string v lte w = not (bytes_lt w v)
compare_string v gte w = not (bytes_lt v w)

unfoldable pub scan_int64 : List ℕ → FilterOp → ℕ → List Bool
unfolding compare_int64
scan_int64 vals op w = map (λ v. compare_int64 v op w) vals

unfoldable pub scan_float64 : FloatOps → List ℕ → FilterOp → ℕ → List Bool
unfolding compare_float64
scan_float64 fl vals op w = map (λ v. compare_float64 fl v op w) vals

unfoldable pub scan_string : List Bytes → FilterOp → Bytes → List Bool
unfolding compare_string
scan_string vals op w = map (λ v. compare_string v op w) vals

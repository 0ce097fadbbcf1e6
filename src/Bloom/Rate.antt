-- ===== src/Bloom/Rate.antt =====
-- `EstimatedFPR` of bloom/bloom.go.
use uniqcol.Common.{if◌then◌else◌, ◌==◌}
use uniqcol.Bloom.Filter.{Filter}
use uniqcol.Bloom.Sizing.{Floats}

-- The further operations of float64 and package math.
pub record Powers {ℓ} (Float : Type ℓ) : Type ℓ where
  pub sub : Float → Float → Float
  pub exp : Float → Float
  pub pow : Float → Float → Float

unfoldable pub estimated_fpr : (fl : Floats) → Powers fl.Float → Filter → fl.Float
estimated_fpr fl pw f =
    if f.n_added == 0
    then fl.of_uint64 0
    else let exponent =
        fl.div (fl.mul (fl.neg (fl.of_uint64 f.k)) (fl.of_uint64 f.n_added)) (fl.of_uint64 f.m) in
      pw.pow (pw.sub (fl.of_uint64 1) (pw.exp exponent)) (fl.of_uint64 f.k)

-- ===== src/Common/Outcomes.antt =====
-- What a call that may fail gives, when it neither panics nor runs out of fuel.
use mathlib.Core.Path.{◌≡◌, refl, subst}
use mathlib.Core.Bool.{Bool, true, false}
use mathlib.Core.Option.{Option, none, some}
use uniqcol.Common.Results.{
  Result, ok, err, panic, stuck, ◌>>=◌, ◌>>◌, fail_if, or_fail, ok-injective,
}
use uniqcol.Common.Tests.{if◌then◌else◌}

-- A value with the property, or an error.
pub data Delivers {ℓ κ} {E : Type ℓ} {A : Type κ} (P : A → Type 0) : Result E A → Type (ℓ ⊔ κ) where
  gives : {a : A} → P a → Delivers P (ok a)
  fails : {e : E} → Delivers P (err e)

module _ {ℓ κ} {E : Type ℓ} {A : Type κ} {P : A → Type 0} where
  pub >>=-Delivers {μ} :
      {B : Type μ} {Q : B → Type 0} (m : Result E A) (f : A → Result E B)
      → Delivers P m
      → ((a : A) → P a → Delivers Q (f a))
      → Delivers Q (m >>= f)
  >>=-Delivers _ f (gives h) k = k _ h
  >>=-Delivers _ f fails k = fails

  pub Delivers-imp :
      {Q : A → Type 0} {m : Result E A} → Delivers P m → ((a : A) → P a → Q a) → Delivers Q m
  Delivers-imp (gives h) k = gives (k _ h)
  Delivers-imp fails k = fails

  pub Delivers-if :
      {m n : Result E A} (b : Bool)
      → (b ≡ true → Delivers P m)
      → (b ≡ false → Delivers P n)
      → Delivers P (if b then m else n)
  Delivers-if true h k = h refl
  Delivers-if false h k = k refl

  pub Delivers-ne-panic : {m : Result E A} → Delivers P m → m ≡ panic → ⊥
  Delivers-ne-panic (gives h) e = cc
  Delivers-ne-panic fails e = cc

  pub Delivers-ok : {m : Result E A} {a : A} → Delivers P m → m ≡ ok a → P a
  Delivers-ok (gives h) e = subst P (ok-injective e) h
  Delivers-ok fails e = cc

  pub Delivers-ne-stuck : {m : Result E A} → Delivers P m → m ≡ stuck → ⊥
  Delivers-ne-stuck (gives h) e = cc
  Delivers-ne-stuck fails e = cc

module _ {ℓ} {E : Type ℓ} where
  -- What follows knows that the test did not fail.
  pub fail_if-Delivers {μ} :
      {B : Type μ} {Q : B → Type 0} (b : Bool) (e : E) (m : Result E B)
      → (b ≡ false → Delivers Q m)
      → Delivers Q (fail_if b e >> m)
  fail_if-Delivers true e m h = fails
  fail_if-Delivers false e m h = h refl

  pub or_fail-Delivers {κ} :
      {A : Type κ} {P : A → Type 0} (o : Option A) (e : E)
      → ((a : A) → o ≡ some a → P a)
      → Delivers P (or_fail o e)
  or_fail-Delivers (some a) e h = gives (h a refl)
  or_fail-Delivers none e h = fails

-- ===== src/Common/Results.antt =====
-- What a Go call that may fail comes back with.
use mathlib.Core.Path.{◌≡◌, refl, ap}
use mathlib.Core.Bool.{Bool, true, false}
use mathlib.Core.Option.{Option, none, some}

-- A value, an error, or a panic. `stuck` is no Go value: a loop of the model ran out of fuel.
pub data Result {ℓ κ} (E : Type ℓ) (A : Type κ) : Type (ℓ ⊔ κ) where
  ok : A → Result E A
  err : E → Result E A
  panic : Result E A
  stuck : Result E A

infixl 5 ◌>>=◌ ◌>>◌
abbrev pub ◌>>=◌ {ℓ κ μ} :
    {E : Type ℓ} {A : Type κ} {B : Type μ} → Result E A → (A → Result E B) → Result E B
stuck >>= next = stuck
panic >>= next = panic
err why >>= next = err why
ok a >>= next = next a

abbrev pub ◌>>◌ {ℓ κ} : {E : Type ℓ} {B : Type κ} → Result E (Unit {0}) → Result E B → Result E B
first >> next = first >>= λ unit. next

-- `if failed { return err }`
abbrev pub fail_if {ℓ} : {E : Type ℓ} → Bool → E → Result E (Unit {0})
fail_if true e = err e
fail_if false e = ok tt

-- `if n <= 0 { return err }` behind a call that tells success by `n`.
abbrev pub or_fail {ℓ κ} : {E : Type ℓ} {A : Type κ} → Option A → E → Result E A
or_fail (some a) e = ok a
or_fail none e = err e

-- An error wrapped by the caller, `fmt.Errorf("...: %w", err)`.
abbrev pub map_err {ℓ κ μ} :
    {E : Type ℓ} {F : Type κ} {A : Type μ} → (E → F) → Result E A → Result F A
map_err f (ok a) = ok a
map_err f (err e) = err (f e)
map_err f panic = panic
map_err f stuck = stuck

-- Where two steps together gave a value, the first step gave one, and the second did from there.
pub >>=-eq-ok {ℓ κ μ} :
    {E : Type ℓ} {A : Type κ} {B : Type μ} (first : Result E A) (next : A → Result E B) {out : B}
    → (first >>= next) ≡ ok out
    → (mid : A) × (first ≡ ok mid) × (next mid ≡ ok out)
>>=-eq-ok stuck next done = cc
>>=-eq-ok panic next done = cc
>>=-eq-ok (err why) next done = cc
>>=-eq-ok (ok mid) next done = (mid, refl, done)

-- A bind of two computations that end.
pub >>=-ne-stuck {ℓ κ μ} :
    {E : Type ℓ} {A : Type κ} {B : Type μ} (m : Result E A) (f : A → Result E B)
    → (m ≡ stuck → ⊥)
    → ((a : A) → m ≡ ok a → f a ≡ stuck → ⊥)
    → (m >>= f) ≡ stuck
    → ⊥
>>=-ne-stuck (ok a) f h k e = k a refl e
>>=-ne-stuck (err x) f h k e = cc
>>=-ne-stuck panic f h k e = cc
>>=-ne-stuck stuck f h k e = h refl

pub or_fail-ne-stuck {ℓ κ} :
    {E : Type ℓ} {A : Type κ} (o : Option A) (e : E) → or_fail o e ≡ stuck → ⊥
or_fail-ne-stuck (some a) e h = cc
or_fail-ne-stuck none e h = cc

pub or_fail-eq-ok {ℓ κ} :
    {E : Type ℓ} {A : Type κ} (o : Option A) (e : E) {a : A} → or_fail o e ≡ ok a → o ≡ some a
or_fail-eq-ok (some b) e h = cc
or_fail-eq-ok none e h = cc

pub fail_if-ne-stuck {ℓ κ} :
    {E : Type ℓ} {B : Type κ} (b : Bool) (e : E) (m : Result E B)
    → (m ≡ stuck → ⊥)
    → (fail_if b e >> m) ≡ stuck
    → ⊥
fail_if-ne-stuck true e m k h = cc
fail_if-ne-stuck false e m k h = k h

-- A guard in front of a computation that came back with a value did not fire.
pub fail_if-eq-ok {ℓ κ} :
    {E : Type ℓ} {B : Type κ} (b : Bool) (e : E) (m : Result E B) {a : B}
    → (fail_if b e >> m) ≡ ok a
    → (b ≡ false) × (m ≡ ok a)
fail_if-eq-ok true e m h = cc
fail_if-eq-ok false e m h = (refl, h)

pub ok-injective {ℓ κ} :
    {E : Type ℓ} {A : Type κ} {a b : A} → ◌≡◌ {A = Result E A} (ok a) (ok b) → a ≡ b
ok-injective h = cc

pub map_err-eq-ok {ℓ κ μ} :
    {E : Type ℓ} {F : Type κ} {A : Type μ} (wrap : E → F) (r : Result E A) {a : A}
    → map_err wrap r ≡ ok a
    → r ≡ ok a
map_err-eq-ok wrap stuck h = cc
map_err-eq-ok wrap panic h = cc
map_err-eq-ok wrap (err e) h = cc
map_err-eq-ok wrap (ok b) h = ap ok (ok-injective h)

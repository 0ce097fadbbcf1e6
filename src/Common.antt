-- ===== src/Common.antt =====
-- The names that the other modules share: the libraries', passed on, and those of the children.
mod Tests
mod Lists
mod Results
mod Outcomes
unfoldable pub use Tests.*
pub use Lists.*
pub use Prim.Native.Nat.{
  ℕ, zero, suc, ◌+◌, ◌-◌, ◌*◌, ◌/◌, ◌%◌, ◌^◌, ◌≤◌, ◌<◌, bit_and, bit_or, bit_xor,
}
pub use mathlib.Core.Path.{◌≡◌, refl, sym, ap, ◌∙◌, subst}
pub use mathlib.Core.Logic.{◌≢◌, ◌↔◌, ◌⊎◌, inl, inr}
pub use mathlib.Core.Bool.{
  Bool, true, false, not, ◌&&◌, ◌||◌, and-true, or-false, and_assoc, or_assoc,
}
pub use mathlib.Core.Option.{Option, none, some, some-injective}
pub use mathlib.Core.List.{map-append, List, [], ◌∷◌, ◌++◌, map, append-nil, append_assoc}
pub use native.Mathlib.Omega.{arith}
pub use Results.{
  Result, ok, err, panic, stuck, ◌>>=◌, ◌>>◌, fail_if, or_fail, map_err, >>=-eq-ok, >>=-ne-stuck,
  or_fail-ne-stuck, or_fail-eq-ok, fail_if-ne-stuck, fail_if-eq-ok, ok-injective, map_err-eq-ok,
}
pub use Outcomes.{
  gives, fails, Delivers, >>=-Delivers, Delivers-imp, Delivers-if, Delivers-ne-panic,
  Delivers-ne-stuck, Delivers-ok, fail_if-Delivers, or_fail-Delivers,
}
unfoldable pub use native.Mathlib.Decide.{ℕ_discrete, dec_lt, dec_le}

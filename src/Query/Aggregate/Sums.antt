-- ===== src/Query/Aggregate/Sums.antt =====
-- The sums of int64 columns against exact arithmetic. `biased x` is the number of the bits `x` plus
-- 2 ^ 63.
use uniqcol.Common.{
  >>=-eq-ok, All, Bool, Bytes, List, Option, Option-cases, [], ap, arith, false, get_elem?, inl,
  inr, length, none, ok, ok-injective, or_fail, or_fail-eq-ok, panic, some, sym, true, ℕ, ◌*◌, ◌++◌,
  ◌+◌, ◌>>=◌, ◌↔◌, ◌∙◌, ◌∷◌, ◌≡◌,
}
use uniqcol.Query.Aggregate.{add_int64_checked, skipped, sum_int64}
use uniqcol.Query.Compare.{biased}
use uniqcol.Query.{Error}
use uniqcol.Binary.{IsU64}

add_exact :
    (a x n : ℕ)
    → IsU64 a
    → IsU64 x
    → add_int64_checked a x ≡ some n
    → IsU64 n × (biased n + 0x8000_0000_0000_0000 ≡ biased a + biased x)
unfolding add_int64_checked
add_exact a x n ha hx e = ground arith

add_possible :
    (a x n : ℕ)
    → IsU64 a
    → IsU64 x
    → IsU64 n
    → biased n + 0x8000_0000_0000_0000 ≡ biased a + biased x
    → add_int64_checked a x ≡ some n
unfolding add_int64_checked
add_possible a x n ha hx hn e = ground arith

-- For two words of 64 bits, `addInt64Checked` gives `n` exactly when `n` is a word and its number
-- is the sum of the two numbers, without any wrapping. So it reports an overflow exactly when the
-- sum is no int64.
pub add_int64_checked_iff :
    (a x n : ℕ)
    → IsU64 a
    → IsU64 x
    → (add_int64_checked a x ≡ some n)
      ↔ (IsU64 n × (biased n + 0x8000_0000_0000_0000 ≡ biased a + biased x))
add_int64_checked_iff a x n ha hx =
    (add_exact a x n ha hx, λ (hn, e). add_possible a x n ha hx hn e)

-- The values at the selected positions, from position `i` on.
unfoldable pub kept : Option (List Bool) → ℕ → List ℕ → List ℕ
kept selection i [] = []
kept none i (x ∷ xs) = x ∷ kept none (i + 1) xs
kept (some bs) i (x ∷ xs) =
    (elim (get_elem? bs i) [ some true ↦ x ∷ [] | _ ↦ [] ]) ++ kept (some bs) (i + 1) xs

-- The sum of the biased numbers.
unfoldable pub biased_total : List ℕ → ℕ
biased_total [] = 0
biased_total (x ∷ xs) = biased x + biased_total xs

-- One round of the loop: a skipped value leaves the sum, another one is added exactly.
sum_int64_skip :
    (col : Bytes) (bs : List Bool) (i x : ℕ) (xs : List ℕ) (sum : ℕ)
    → get_elem? bs i ≡ some false
    → (sum_int64 col (some bs) i (x ∷ xs) sum ≡ sum_int64 col (some bs) (i + 1) xs sum)
      × (kept (some bs) i (x ∷ xs) ≡ kept (some bs) (i + 1) xs)
unfolding sum_int64 skipped kept
sum_int64_skip col bs i x xs sum h = (rw (skipped, h), rw (kept, h))

sum_int64_take :
    (col : Bytes) (bs : List Bool) (i x : ℕ) (xs : List ℕ) (sum : ℕ)
    → get_elem? bs i ≡ some true
    → (sum_int64 col (some bs) i (x ∷ xs) sum ≡ (
        or_fail (add_int64_checked sum x) (Error.sum_overflow col) >>= λ m.
        sum_int64 col (some bs) (i + 1) xs m))
      × (kept (some bs) i (x ∷ xs) ≡ x ∷ kept (some bs) (i + 1) xs)
unfolding sum_int64 skipped kept
sum_int64_take col bs i x xs sum h = (rw (skipped, h), rw (kept, h))

sum_int64_beyond :
    (col : Bytes) (bs : List Bool) (i x : ℕ) (xs : List ℕ) (sum : ℕ)
    → get_elem? bs i ≡ none
    → sum_int64 col (some bs) i (x ∷ xs) sum ≡ panic
unfolding sum_int64 skipped
sum_int64_beyond col bs i x xs sum h = rw (skipped, h)

-- Where the loop gives a sum, it is the sum of the selected values without any wrapping, on top of
-- the one it started with.
sum_int64_exact :
    (col : Bytes) (selection : Option (List Bool)) (i : ℕ) (xs : List ℕ) (sum n : ℕ)
    → IsU64 sum
    → All IsU64 xs
    → sum_int64 col selection i xs sum ≡ ok n
    → biased n + 0x8000_0000_0000_0000 * length (kept selection i xs)
      ≡ biased sum + biased_total (kept selection i xs)
unfolding biased_total sum_int64 kept skipped
sum_int64_exact col selection i [] sum n hs hxs e = ap (λ m. biased m + 0) (sym (ok-injective e))
sum_int64_exact col none i (x ∷ xs) sum n hs (hx, hxs) e =
    let (m, added, e') = >>=-eq-ok (or_fail (add_int64_checked sum x) _) _ e in
    let (hm, exact) = add_exact sum x m hs hx (or_fail-eq-ok _ _ added) in
    let later = sum_int64_exact col none (i + 1) xs m n hm hxs e' in omega (arith, later, exact)
sum_int64_exact col (some bs) i (x ∷ xs) sum n hs (hx, hxs) e =
    elim (Option-cases (get_elem? bs i)) [
      | inl beyond ↦ cc (sym (sum_int64_beyond col bs i x xs sum beyond) ∙ e)
      | inr (false, at) ↦
          let (step, same) = sum_int64_skip col bs i x xs sum at in
          rw same (sum_int64_exact col (some bs) (i + 1) xs sum n hs hxs (sym step ∙ e))
      | inr (true, at) ↦
          let (step, same) = sum_int64_take col bs i x xs sum at in
          let (m, added, e') = >>=-eq-ok (or_fail (add_int64_checked sum x) _) _ (sym step ∙ e) in
          let (hm, exact) = add_exact sum x m hs hx (or_fail-eq-ok _ _ added) in
          let later = sum_int64_exact col (some bs) (i + 1) xs m n hm hxs e' in
          rw same (omega (arith, later, exact))
    ]

-- When `SUM` of an int64 column gives `n`, the number `n` is the exact sum of the selected numbers.
-- Each number has 2 ^ 63 added on both sides, which makes it a natural. The column's values are
-- words of 64 bits.
pub sum_int64_lem :
    (col : Bytes) (selection : Option (List Bool)) (xs : List ℕ) (n : ℕ)
    → All IsU64 xs
    → sum_int64 col selection 0 xs 0 ≡ ok n
    → biased n + 0x8000_0000_0000_0000 * length (kept selection 0 xs)
      ≡ 0x8000_0000_0000_0000 + biased_total (kept selection 0 xs)
sum_int64_lem col selection xs n hxs e = sum_int64_exact col selection 0 xs 0 n (omega arith) hxs e

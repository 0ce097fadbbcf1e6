-- ===== src/Bench/Distinct.antt =====
-- Lists of different numbers, by which the keys of generated rows are counted.
use uniqcol.Common.{
  ==_sound, All, All-imp, Bool-cases, List, [], ap, arith, if◌then◌else◌, inl, inr, length, refl,
  subst, suc, sym, zero, ℕ, ◌+◌, ◌==◌, ◌∷◌, ◌≡◌, ◌≢◌, ◌≤◌,
}
use uniqcol.Bench.Ids.{IsBetween}

-- Numbers that are pairwise different.
abbrev pub AreDistinct : List ℕ → Type 0
AreDistinct [] = Unit {0}
AreDistinct (x ∷ xs) = All (λ y. x ≢ y) xs × AreDistinct xs

abbrev without : ℕ → List ℕ → List ℕ
without k [] = []
without k (x ∷ xs) = if x == k then without k xs else x ∷ without k xs

All-without :
    (P : ℕ → Type 0) (k : ℕ) (xs : List ℕ) → All P xs → All (λ x. P x × (x ≢ k)) (without k xs)
All-without P k [] h = tt
All-without P k (x ∷ xs) (p, ps) = elim (Bool-cases (x == k)) [
  | inl same ↦ rw same (All-without P k xs ps)
  | inr other ↦ rw other ((p, λ e. ground arith), All-without P k xs ps)
]

AreDistinct-without : (k : ℕ) (xs : List ℕ) → AreDistinct xs → AreDistinct (without k xs)
AreDistinct-without k [] h = tt
AreDistinct-without k (x ∷ xs) (p, ps) = elim (Bool-cases (x == k)) [
  | inl same ↦ rw same (AreDistinct-without k xs ps)
  | inr other ↦
      rw other (
        All-imp _ _ (without k xs) (λ y h. h.0) (All-without _ k xs p),
        AreDistinct-without k xs ps,
      )
]

-- A number that is not there.
length-without_absent :
    (k : ℕ) (xs : List ℕ) → All (λ y. k ≢ y) xs → length (without k xs) ≡ length xs
length-without_absent k [] h = refl
length-without_absent k (x ∷ xs) (p, ps) = elim (Bool-cases (x == k)) [
  | inl same ↦ absurd (p (sym (==_sound x k same)))
  | inr other ↦ rw other (ap suc (length-without_absent k xs ps))
]

length-without : (k : ℕ) (xs : List ℕ) → AreDistinct xs → length xs ≤ length (without k xs) + 1
length-without k [] h = omega arith
length-without k (x ∷ xs) (p, ps) = elim (Bool-cases (x == k)) [
  | inl same ↦
      let absent = subst (λ y. All (λ z. y ≢ z) xs) (==_sound x k same) p in
      rw same (omega (arith, length-without_absent k xs absent))
  | inr other ↦ rw other (omega (arith, length-without k xs ps))
]

-- Different numbers from 1 to `high` are `high` at most.
pub length-AreDistinct :
    (high : ℕ) (xs : List ℕ) → AreDistinct xs → All (IsBetween 1 high) xs → length xs ≤ high
length-AreDistinct high [] d h = omega arith
length-AreDistinct zero (x ∷ xs) d ((low, upper), h) = omega arith
length-AreDistinct (suc high) (x ∷ xs) d h =
    let fewer =
      length-AreDistinct high (without (suc high) (x ∷ xs))
        (AreDistinct-without (suc high) (x ∷ xs) d)
        (All-imp _ _ (without (suc high) (x ∷ xs))
          (λ y ((low, upper), other). (low, omega (arith, other)))
          (All-without (IsBetween 1 (suc high)) (suc high) (x ∷ xs) h)) in
    omega (arith, fewer, length-without (suc high) (x ∷ xs) d)

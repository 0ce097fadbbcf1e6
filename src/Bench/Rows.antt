-- ===== src/Bench/Rows.antt =====
-- The two loops of `GenRows`, and what they make.
use uniqcol.Common.{
  All, All-append, List, Result, [], ap, append-nil, append_assoc, arith, false, length,
  length-append, ltb, ok, refl, subst, suc, sym, zero, ℕ, ◌%◌, ◌*◌, ◌++◌, ◌+◌, ◌-◌, ◌<◌, ◌==◌,
  ◌>>=◌, ◌||◌, ◌∙◌, ◌∷◌, ◌≡◌, ◌≤◌,
}
use uniqcol.Storage.Codec.{max_alloc}
use uniqcol.Query.Aggregate.{is_negative}
use Prim.Native.Nat.{min}
use uniqcol.Bloom.Filter.{u64_mod}
use uniqcol.Bench.{
  bench_schema, RowFloats, Random, bench_countries, draw, fresh_row, unique_rows, copied_rows,
  round_to_2, wanted_dups, dup_count, rounds, gen_rows,
}
use uniqcol.Storage.Buffer.{check_row, len}
use uniqcol.Storage.Types.{Value, Row}
use uniqcol.Bench.Ids.{
  HasId, HaveIds, IsBetween, count_from, count_from-IsBetween, length-count_from, element_total,
  element-of_get, HaveIds-snoc, HaveIds-element,
}

-- What package rand says of `Intn`.
abbrev pub IsInRange : Random → Type 0
IsInRange rnd = (n : ℕ) (r : rnd.Source) → 1 ≤ n → n < 0x8000_0000_0000_0000 → (rnd.intn n r).0 < n

module _ (fl : RowFloats) (rnd : Random) (in_range : IsInRange rnd) where
  draw_lem :
      (n : ℕ) (r : rnd.Source)
      → 1 ≤ n
      → n < 0x8000_0000_0000_0000
      → (draw rnd n r ≡ ok (rnd.intn n r)) × ((rnd.intn n r).0 < n)
  unfolding draw
  draw_lem n r pos small = (ground arith, in_range n r pos small)

  fresh_row_lem :
      (i : ℕ) (r : rnd.Source)
      → (row : Row) × (r' : rnd.Source) × (fresh_row fl rnd (Value.int64 i) r ≡ ok (row, r'))
        × HasId i row
  unfolding fresh_row draw bench_countries bench_schema check_row
  fresh_row_lem i r =
      let (user, r₁) = rnd.intn 100_000 r in
      let (amount, r₂) = rnd.unit_float r₁ in
      let lt = in_range 20 r₂ (omega arith) (omega arith) in
      let (country, e₃) = element_total bench_countries (rnd.intn 20 r₂).0 lt in
      let row : Row =
        Value.int64 i
        ∷ Value.int64 ((1 + user) % u64_mod)
        ∷ Value.float64 (round_to_2 fl (fl.multiply amount 0x408F_4000_0000_0000))
        ∷ Value.string country
        ∷ [] in
      (row, (rnd.intn 20 r₂).1, rw e₃ refl, (refl, refl, refl))

  unique_rows_lem :
      (n i : ℕ) (is : List ℕ) (rows : List Row) (r : rnd.Source)
      → HaveIds is rows
      → i + n < u64_mod
      → (out : List Row) × (r' : rnd.Source) × (unique_rows fl rnd n i rows r ≡ ok (out, r'))
        × HaveIds (is ++ count_from (i + 1) n) out
  unfolding unique_rows
  unique_rows_lem zero i is rows r hs small =
      (rows, r, refl, subst (λ js. HaveIds js rows) (sym (append-nil is)) hs)
  unique_rows_lem (suc n) i is rows r hs small =
      let same : (i + 1) % u64_mod ≡ i + 1 = omega arith in
      let (row, r₁, made, has) = fresh_row_lem ((i + 1) % u64_mod) r in
      let (out, r', rest, all) =
        unique_rows_lem n (i + 1) (is ++ (i + 1) ∷ []) (rows ++ row ∷ []) r₁
          (HaveIds-snoc is rows (i + 1) row hs (subst (λ k. HasId k row) same has)) (omega arith) in
      (
        out,
        r',
        rw made rest,
        subst (λ js. HaveIds js out) (append_assoc is ((i + 1) ∷ []) (count_from (i + 1 + 1) n))
            all,
      )

  copied_rows_lem :
      (P : ℕ → Type 0) (uniques n : ℕ) (is : List ℕ) (rows : List Row) (r : rnd.Source)
      → HaveIds is rows
      → All P is
      → 1 ≤ uniques
      → uniques < 0x8000_0000_0000_0000
      → uniques ≤ length is
      → (out : List Row) × (r' : rnd.Source) × (copies : List ℕ) × (copied_rows fl rnd uniques n
            rows r
          ≡ ok (out, r'))
        × HaveIds (is ++ copies) out
        × All P copies
        × (length copies ≡ n)
  unfolding copied_rows
  copied_rows_lem P uniques zero is rows r hs ps pos small long =
      (rows, r, [], refl, subst (λ js. HaveIds js rows) (sym (append-nil is)) hs, tt, refl)
  copied_rows_lem P uniques (suc n) is rows r hs ps pos small long =
      let (drawn, lt) = draw_lem uniques r pos small in
      let (src, i, at, has_key, p) =
        HaveIds-element P is rows (rnd.intn uniques r).0 hs ps (omega (arith, lt)) in
      let (row, r₁, made, has) = fresh_row_lem i (rnd.intn uniques r).1 in
      let (out, r', copies, rest, all, qs, len) =
        copied_rows_lem P uniques n (is ++ i ∷ []) (rows ++ row ∷ []) r₁
          (HaveIds-snoc is rows i row hs has) (All-append P is (i ∷ []) ps (p, tt)) pos small
          (omega (arith, length-append is (i ∷ []))) in
      (
        out,
        r',
        i ∷ copies,
        rw (drawn, at, element-of_get src 0 has_key.0, made) rest,
        subst (λ js. HaveIds js out) (append_assoc is (i ∷ []) copies) all,
        (p, qs),
        ap suc len,
      )

dup_count_lem : (w n : ℕ) → is_negative w ≡ false → dup_count w n ≡ min w (n - 1)
unfolding dup_count
dup_count_lem w n sign = ground arith

rounds_lem : (n : ℕ) → n < 0x8000_0000_0000_0000 → rounds n ≡ n
unfolding rounds
rounds_lem n small = ground arith

module _ (fl : RowFloats) (rnd : Random) (n d seed : ℕ) where
  abbrev both_loops : ℕ → Result ⊥ (List Row)
  both_loops m = do
    (rows, r) ← unique_rows fl rnd (n - m) 0 [] (rnd.new_source seed)
    (all, _) ← copied_rows fl rnd (n - m) m rows r
    ok all

  gen_rows-loops :
      1 ≤ n
      → 24 * n ≤ max_alloc
      → is_negative (wanted_dups fl n d) ≡ false
      → gen_rows fl rnd n d seed ≡ both_loops (min (wanted_dups fl n d) (n - 1))
  unfolding gen_rows
  gen_rows-loops pos small sign =
      let m = min (wanted_dups fl n d) (n - 1) in
      let guard : (is_negative n || n == 0) ≡ false = ground arith in
      let room : ltb max_alloc (24 * n) ≡ false = ground arith in
      let dups = dup_count_lem (wanted_dups fl n d) n sign in
      let uniques : (n + u64_mod - m) % u64_mod ≡ n - m = omega arith in
      let first : rounds (n - m) ≡ n - m = rounds_lem (n - m) (omega arith) in
      let second : rounds m ≡ m = rounds_lem m (omega arith) in
      rw (guard, room, dups, uniques, first, second) refl

  both_loops_lem :
      (m : ℕ)
      → IsInRange rnd
      → m < n
      → 24 * n ≤ max_alloc
      → (rows : List Row) × (copies : List ℕ) × (both_loops m ≡ ok rows)
        × (length copies ≡ m)
        × HaveIds (count_from 1 (n - m) ++ copies) rows
        × All (IsBetween 1 (n - m)) copies
  both_loops_lem m in_range less small =
      let (rows, r, made, ids) =
        unique_rows_lem fl rnd in_range (n - m) 0 [] [] (rnd.new_source seed) tt (omega arith) in
      let (all, _, copies, copied, ids', between, len) =
        copied_rows_lem fl rnd in_range (IsBetween 1 (n - m)) (n - m) m (count_from 1 (n - m)) rows
          r ids (count_from-IsBetween 1 (n - m) 1 (n - m) (omega arith) (omega arith)) (omega arith)
          (omega arith) (omega (arith, length-count_from 1 (n - m))) in
      (all, copies, rw (made, copied) refl, len, ids', between)

-- For a positive `n`, `GenRows` gives rows that the benchmark's schema accepts. Their keys are 1,
-- 2, ... and behind these some copies of them. The copies are, in number, the floor of the fraction
-- of `n`, and `n - 1` at most. The bounds of `Intn` are kept, the floor is not negative, and the
-- slice takes at most 2 ^ 48 bytes.
pub gen_rows_lem :
    (fl : RowFloats) (rnd : Random) (n d seed : ℕ)
    → IsInRange rnd
    → 1 ≤ n
    → 24 * n ≤ max_alloc
    → is_negative (wanted_dups fl n d) ≡ false
    → (rows : List Row) × (copies : List ℕ) × (gen_rows fl rnd n d seed ≡ ok rows)
      × (length copies ≡ min (wanted_dups fl n d) (n - 1))
      × HaveIds (count_from 1 (n - min (wanted_dups fl n d) (n - 1)) ++ copies) rows
      × All (IsBetween 1 (n - min (wanted_dups fl n d) (n - 1))) copies
gen_rows_lem fl rnd n d seed in_range pos small sign =
    let (rows, copies, made, len, ids, between) =
      both_loops_lem fl rnd n d seed (min (wanted_dups fl n d) (n - 1)) in_range (omega arith)
        small in
    (rows, copies, gen_rows-loops fl rnd n d seed pos small sign ∙ made, len, ids, between)

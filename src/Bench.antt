-- ===== src/Bench.antt =====
-- bench/datagen.go: the rows that the benchmarks load. An int is its 64 bits.
pub mod Ids
pub mod Rows
pub mod Distinct
pub mod Loads
use uniqcol.Common.{
  Bool, Bytes, List, Result, [], if◌then◌else◌, length, ltb, ok, panic, suc, zero, ℕ, ◌%◌, ◌*◌,
  ◌++◌, ◌+◌, ◌-◌, ◌==◌, ◌>>=◌, ◌||◌, ◌∷◌,
}
use uniqcol.Bloom.Filter.{u64_mod}
use uniqcol.Query.Aggregate.{is_negative}
use uniqcol.Storage.Codec.{max_alloc}
use uniqcol.Storage.Types.{ColumnType, Schema, Value, Row}

-- The float64 operations and package math, on bits; `to_int` is the conversion to int.
pub record RowFloats : Type 0 where
  pub multiply : ℕ → ℕ → ℕ
  pub divide : ℕ → ℕ → ℕ
  pub round : ℕ → ℕ
  pub floor : ℕ → ℕ
  pub of_int : ℕ → ℕ
  pub to_int : ℕ → ℕ
  pub less : ℕ → ℕ → Bool

-- `rand.Rand`: its state after a call is passed on. `intn` is asked for a positive bound only.
pub record Random : Type 1 where
  pub Source : Type 0
  pub new_source : ℕ → Source
  pub intn : ℕ → Source → ℕ × Source
  pub unit_float : Source → ℕ × Source

unfoldable pub bench_countries : List Bytes
bench_countries =
    (b'T' ∷ b'R' ∷ [])
    ∷ (b'U' ∷ b'S' ∷ [])
    ∷ (b'D' ∷ b'E' ∷ [])
    ∷ (b'G' ∷ b'B' ∷ [])
    ∷ (b'F' ∷ b'R' ∷ [])
    ∷ (b'E' ∷ b'S' ∷ [])
    ∷ (b'I' ∷ b'T' ∷ [])
    ∷ (b'N' ∷ b'L' ∷ [])
    ∷ (b'B' ∷ b'E' ∷ [])
    ∷ (b'S' ∷ b'E' ∷ [])
    ∷ (b'F' ∷ b'I' ∷ [])
    ∷ (b'N' ∷ b'O' ∷ [])
    ∷ (b'D' ∷ b'K' ∷ [])
    ∷ (b'P' ∷ b'L' ∷ [])
    ∷ (b'A' ∷ b'T' ∷ [])
    ∷ (b'C' ∷ b'H' ∷ [])
    ∷ (b'P' ∷ b'T' ∷ [])
    ∷ (b'I' ∷ b'E' ∷ [])
    ∷ (b'G' ∷ b'R' ∷ [])
    ∷ (b'J' ∷ b'P' ∷ [])
    ∷ []

abbrev pub event_id : Bytes
event_id = b'e' ∷ b'v' ∷ b'e' ∷ b'n' ∷ b't' ∷ b'_' ∷ b'i' ∷ b'd' ∷ []

unfoldable pub bench_schema : Schema
bench_schema = record {
  pk = event_id;
  columns =
      record { name = event_id; type = ColumnType.int64 }
      ∷ record {
        name = b'u' ∷ b's' ∷ b'e' ∷ b'r' ∷ b'_' ∷ b'i' ∷ b'd' ∷ [];
        type = ColumnType.int64;
      }
      ∷ record { name = b'a' ∷ b'm' ∷ b'o' ∷ b'u' ∷ b'n' ∷ b't' ∷ []; type = ColumnType.float64 }
      ∷ record {
        name = b'c' ∷ b'o' ∷ b'u' ∷ b'n' ∷ b't' ∷ b'r' ∷ b'y' ∷ [];
        type = ColumnType.string;
      }
      ∷ [];
}

-- `math.Round(x*100) / 100`, with the bits of 100.
unfoldable pub round_to_2 : RowFloats → ℕ → ℕ
round_to_2 fl x = fl.divide (fl.round (fl.multiply x 0x4059_0000_0000_0000)) 0x4059_0000_0000_0000

-- `xs[i]`
unfoldable pub element {ℓ} : {A : Type ℓ} → List A → ℕ → Result ⊥ A
element [] i = panic
element (x ∷ xs) zero = ok x
element (x ∷ xs) (suc i) = element xs i

-- `r.Intn(n)`, which panics if `n <= 0`.
unfoldable pub draw : (rnd : Random) → ℕ → rnd.Source → Result ⊥ (ℕ × rnd.Source)
draw rnd n r = if is_negative n || n == 0 then panic else ok (rnd.intn n r)

-- A row with fresh fields behind its key; 1000 by its bits.
unfoldable pub fresh_row :
    RowFloats → (rnd : Random) → Value → rnd.Source → Result ⊥ (Row × rnd.Source)
unfolding draw round_to_2 element bench_countries
fresh_row fl rnd key r = do
  (user, r₁) ← draw rnd 100_000 r
  (amount, r₂) ← ok (rnd.unit_float r₁)
  (c, r₃) ← draw rnd (length bench_countries) r₂
  country ← element bench_countries c
  ok (
    key
        ∷ Value.int64 ((1 + user) % u64_mod)
        ∷ Value.float64 (round_to_2 fl (fl.multiply amount 0x408F_4000_0000_0000))
        ∷ Value.string country
        ∷ [],
    r₃,
  )

-- The first loop, with `n` rounds left and `i` behind it.
unfoldable pub unique_rows :
    RowFloats → (rnd : Random) → ℕ → ℕ → List Row → rnd.Source → Result ⊥ (List Row × rnd.Source)
unfolding fresh_row
unique_rows fl rnd zero i rows r = ok (rows, r)
unique_rows fl rnd (suc n) i rows r = do
  (row, r₁) ← fresh_row fl rnd (Value.int64 ((i + 1) % u64_mod)) r
  unique_rows fl rnd n (i + 1) (rows ++ row ∷ []) r₁

-- The second loop, with `n` rounds left: a row with the key of one of the first rows.
unfoldable pub copied_rows :
    RowFloats → (rnd : Random) → ℕ → ℕ → List Row → rnd.Source → Result ⊥ (List Row × rnd.Source)
unfolding draw element fresh_row
copied_rows fl rnd uniques zero rows r = ok (rows, r)
copied_rows fl rnd uniques (suc n) rows r = do
  (j, r₁) ← draw rnd uniques r
  src ← element rows j
  key ← element src 0
  (row, r₂) ← fresh_row fl rnd key r₁
  copied_rows fl rnd uniques n (rows ++ row ∷ []) r₂

-- The bits of 1 are 0x3ff0...; NaN is left as it is.
unfoldable pub clamp_fraction : RowFloats → ℕ → ℕ
clamp_fraction fl d =
    let low = if fl.less d 0 then 0 else d in
    if fl.less 0x3FF0_0000_0000_0000 low then 0x3FF0_0000_0000_0000 else low

-- `int(math.Floor(dupFraction * float64(n)))`
unfoldable pub wanted_dups : RowFloats → ℕ → ℕ → ℕ
unfolding clamp_fraction
wanted_dups fl n d = fl.to_int (fl.floor (fl.multiply (clamp_fraction fl d) (fl.of_int n)))

-- `min(wanted, n-1)` for an `n` that is positive.
unfoldable pub dup_count : ℕ → ℕ → ℕ
dup_count wanted n = if is_negative wanted || ltb wanted (n - 1) then wanted else n - 1

-- `for range n` does nothing when `n` is negative.
unfoldable pub rounds : ℕ → ℕ
rounds n = if is_negative n then 0 else n

-- A row takes 24 bytes of the slice.
unfoldable pub gen_rows : RowFloats → (rnd : Random) → (n d seed : ℕ) → Result ⊥ (List Row)
unfolding unique_rows copied_rows wanted_dups dup_count rounds
gen_rows fl rnd n d seed =
    if is_negative n || n == 0
    then ok []
    else if ltb max_alloc (24 * n)
    then panic
    else let dups = dup_count (wanted_dups fl n d) n in
      let uniques = (n + u64_mod - dups) % u64_mod in
      do
        (rows, r) ← unique_rows fl rnd (rounds uniques) 0 [] (rnd.new_source seed)
        (all, _) ← copied_rows fl rnd uniques (rounds dups) rows r
        ok all

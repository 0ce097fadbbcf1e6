-- ===== src/Command/Format.antt =====
-- cmd/uniqcol/format.go: numbers for readers. An int64 is its 64 bits; a slice out of range panics.
pub mod Commas
use uniqcol.Common.{
  Bytes, Result, [], drop, false, if◌then◌else◌, leb, length, ltb, ok, panic, stuck, suc, take,
  true, zero, ℕ, ◌%◌, ◌&&◌, ◌*◌, ◌++◌, ◌+◌, ◌-◌, ◌==◌, ◌>>=◌, ◌||◌, ◌∷◌,
}
use uniqcol.Storage.Types.{Value}
use uniqcol.Bloom.Filter.{u64_mod}
use uniqcol.Query.Aggregate.{is_negative}

-- What packages strconv and fmt make of numbers: `FormatUint` and `FormatInt` in base 10,
-- `FormatFloat` with 'g', a quotient of float64 with one decimal, and `%v`.
pub record Texts : Type 0 where
  pub format_uint : ℕ → Bytes
  pub format_int : ℕ → Bytes
  pub format_float : ℕ → Bytes
  pub one_decimal : ℕ → ℕ → Bytes
  pub format_any : Value → Bytes

-- `s[i:j]`
unfoldable pub slice : Bytes → ℕ → ℕ → Result ⊥ Bytes
slice s i j = if leb i j && leb j (length s) then ok (take (j - i) (drop i s)) else panic

-- The loop from `i` on, one unit of fuel a round.
unfoldable pub comma_loop : ℕ → Bytes → ℕ → Bytes → Result ⊥ Bytes
unfolding slice
comma_loop zero s i out = if ltb i (length s) then stuck else ok out
comma_loop (suc fuel) s i out = elim (ltb i (length s)) [
  | true ↦ (do group ← slice s i (i + 3); comma_loop fuel s (i + 3) (out ++ b',' ∷ group))
  | false ↦ ok out
]

-- The length of the first group.
unfoldable pub first_group : ℕ → ℕ
first_group n = if n % 3 == 0 then 3 else n % 3

-- With the decimal digits `s` of the number.
unfoldable pub comma_sep : Bytes → Result ⊥ Bytes
unfolding comma_loop first_group
comma_sep s = elim (leb (length s) 3) [
  | true ↦ ok s
  | false ↦ (do
    head ← slice s 0 (first_group (length s))
    comma_loop (length s) s (first_group (length s)) head)
]

unfoldable pub comma_sep_uint64 : Texts → ℕ → Result ⊥ Bytes
unfolding comma_sep
comma_sep_uint64 tx n = comma_sep (tx.format_uint n)

unfoldable pub comma_sep_int64 : Texts → ℕ → Result ⊥ Bytes
unfolding comma_sep_uint64
comma_sep_int64 tx n = elim (is_negative n) [
  | true ↦ (do text ← comma_sep_uint64 tx ((u64_mod - n) % u64_mod); ok (b'-' ∷ text))
  | false ↦ comma_sep_uint64 tx n
]

-- A number of bytes in a unit; a negative one is in bytes.
unfoldable pub human_bytes : Texts → ℕ → Bytes
human_bytes tx n =
    if is_negative n || ltb n 1024
    then tx.format_int n ++ b' ' ∷ b'B' ∷ []
    else if ltb n (1024 * 1024)
    then tx.one_decimal n 1024 ++ b' ' ∷ b'K' ∷ b'B' ∷ []
    else if ltb n (1024 * 1024 * 1024)
    then tx.one_decimal n (1024 * 1024) ++ b' ' ∷ b'M' ∷ b'B' ∷ []
    else if ltb n (1024 * 1024 * 1024 * 1024)
    then tx.one_decimal n (1024 * 1024 * 1024) ++ b' ' ∷ b'G' ∷ b'B' ∷ []
    else tx.one_decimal n (1024 * 1024 * 1024 * 1024) ++ b' ' ∷ b'T' ∷ b'B' ∷ []

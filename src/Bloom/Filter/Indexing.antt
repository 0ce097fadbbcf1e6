-- ===== src/Bloom/Filter/Indexing.antt =====
-- `Add` and `Contains` of bloom/bloom.go with the panics of their indexing. On a well-formed filter they
-- are `add` and `contains`.
use uniqcol.Common.{
  Bool, Bool-cases, Bytes, Result, [], arith, bit_and, bit_or, false, get_elem?, get_or, inl, inr,
  length, none, ok, panic, refl, set, some, suc, true, zero, ℕ, ◌%◌, ◌+◌, ◌/◌, ◌<◌, ◌==◌, ◌>>=◌,
  ◌^◌, ◌∷◌, ◌≡◌, ◌≤◌,
}
use uniqcol.Bloom.Filter.{
  Filter, add, add_loop, bit_clear, contains, contains_loop, hash128, position, set_bit, u64_mod,
}
use uniqcol.Bloom.Filter.Bits.{IsBits, set_bit-IsBits}
use uniqcol.Bloom.Filter.Membership.{IsValid, IsValid-IsBits, position-lt}

-- `f.bits[i]`
unfoldable pub index_bits {ℓ} : {E : Type ℓ} → Bytes → ℕ → Result E ℕ
index_bits bits i = elim (get_elem? bits i) [ none ↦ panic | some b ↦ ok b ]

-- `f.bits[idx/8] |= 1 << (idx % 8)`
unfoldable pub try_set_bit {ℓ} : {E : Type ℓ} → Bytes → ℕ → Result E Bytes
unfolding index_bits
try_set_bit bits idx = do
  b ← index_bits bits (idx / 8)
  ok (set bits (idx / 8) (bit_or b (2 ^ (idx % 8))))

-- `f.bits[idx/8]&(1<<(idx%8)) == 0`
unfoldable pub try_bit_clear {ℓ} : {E : Type ℓ} → Bytes → ℕ → Result E Bool
unfolding index_bits
try_bit_clear bits idx = do b ← index_bits bits (idx / 8); ok (bit_and b (2 ^ (idx % 8)) == 0)

unfoldable pub try_add_loop {ℓ} : {E : Type ℓ} → ℕ → ℕ → (ℕ → ℕ) → Bytes → Result E Bytes
unfolding try_set_bit
try_add_loop zero i pos bits = ok bits
try_add_loop (suc n) i pos bits = do
  bits' ← try_set_bit bits (pos i)
  try_add_loop n (i + 1) pos bits'

unfoldable pub try_contains_loop {ℓ} : {E : Type ℓ} → ℕ → ℕ → (ℕ → ℕ) → Bytes → Result E Bool
unfolding try_bit_clear
try_contains_loop zero i pos bits = ok true
try_contains_loop (suc n) i pos bits = do
  clear ← try_bit_clear bits (pos i)
  elim clear [ true ↦ ok false | false ↦ try_contains_loop n (i + 1) pos bits ]

-- `Add`
unfoldable pub try_add {ℓ} : {E : Type ℓ} → Filter → Bytes → Result E Filter
unfolding try_add_loop position hash128
try_add f key = do
  bits ← try_add_loop f.k 0 (position f.m (hash128 key)) f.bits
  ok (record f { bits = bits; n_added = (f.n_added + 1) % u64_mod })

-- `Contains`
unfoldable pub try_contains {ℓ} : {E : Type ℓ} → Filter → Bytes → Result E Bool
unfolding try_contains_loop position hash128
try_contains f key = try_contains_loop f.k 0 (position f.m (hash128 key)) f.bits

index_bits-get_or {ℓ} :
    {E : Type ℓ} (bits : Bytes) (i : ℕ)
    → i < length bits
    → index_bits {E = E} bits i ≡ ok (get_or bits i 0)
unfolding index_bits
index_bits-get_or [] i h = absurd (omega arith)
index_bits-get_or (b ∷ bits) zero h = refl
index_bits-get_or (b ∷ bits) (suc i) h = index_bits-get_or bits i (omega arith)

module _ {ℓ} {E : Type ℓ} (m : ℕ) (pos : ℕ → ℕ) (in_range : (i : ℕ) → pos i < m) where
  index_in_range :
      (bits : Bytes) (i : ℕ)
      → IsBits m bits
      → index_bits {E = E} bits (pos i / 8) ≡ ok (get_or bits (pos i / 8) 0)
  index_in_range bits i h = index_bits-get_or bits (pos i / 8) (omega (arith, h.room, in_range i))

  try_add_loop_lem :
      (n i : ℕ) (bits : Bytes)
      → IsBits m bits
      → try_add_loop {E = E} n i pos bits ≡ ok (add_loop n i pos bits)
  unfolding try_add_loop add_loop set_bit
  try_add_loop_lem zero i bits h = refl
  try_add_loop_lem (suc n) i bits h =
      rw (index_in_range bits i h)
        (try_add_loop_lem n (i + 1) (set_bit bits (pos i)) (set_bit-IsBits m bits (pos i) h))

  try_contains_loop_lem :
      (n i : ℕ) (bits : Bytes)
      → IsBits m bits
      → try_contains_loop {E = E} n i pos bits ≡ ok (contains_loop n i pos bits)
  unfolding try_contains_loop contains_loop bit_clear
  try_contains_loop_lem zero i bits h = refl
  try_contains_loop_lem (suc n) i bits h =
      rw (index_in_range bits i h) (elim (Bool-cases (bit_clear bits (pos i))) [
        | inl clear ↦ rw clear refl
        | inr there ↦ rw there (try_contains_loop_lem n (i + 1) bits h)
      ])

-- On a well-formed filter no index is out of range.
pub try_add_lem {ℓ} :
    {E : Type ℓ} (f : Filter) (key : Bytes) → IsValid f → try_add {E = E} f key ≡ ok (add f key)
unfolding try_add add
try_add_lem f key v =
    rw
      (try_add_loop_lem f.m (position f.m (hash128 key))
        (λ i. position-lt f.m (hash128 key) i v.m_pos) f.k 0 f.bits (IsValid-IsBits f v))
      refl

pub try_contains_lem {ℓ} :
    {E : Type ℓ} (f : Filter) (key : Bytes)
    → IsValid f
    → try_contains {E = E} f key ≡ ok (contains f key)
unfolding try_contains contains
try_contains_lem f key v =
    try_contains_loop_lem f.m (position f.m (hash128 key))
      (λ i. position-lt f.m (hash128 key) i v.m_pos) f.k 0 f.bits (IsValid-IsBits f v)

try_contains_loop-empty {ℓ} :
    {E : Type ℓ} (n i : ℕ) (pos : ℕ → ℕ) (bits : Bytes)
    → 1 ≤ n
    → bits ≡ []
    → try_contains_loop {E = E} n i pos bits ≡ panic
unfolding try_contains_loop index_bits
try_contains_loop-empty zero i pos bits h none_left = absurd (omega arith)
try_contains_loop-empty (suc n) i pos bits h none_left = rw none_left refl

-- Without any bits, `Contains` panics on every key.
pub try_contains_panics {ℓ} :
    {E : Type ℓ} (f : Filter) (key : Bytes)
    → 1 ≤ f.k
    → f.bits ≡ []
    → try_contains {E = E} f key ≡ panic
unfolding try_contains
try_contains_panics f key some_k no_bits =
    try_contains_loop-empty f.k 0 (position f.m (hash128 key)) f.bits some_k no_bits

-- ===== src/Bloom/Filter.antt =====
-- The filter of bloom/bloom.go. The bit array is a list of bytes; the functions that change the
-- filter return the new one.
pub mod Bits
pub mod Membership
pub mod History
pub mod Indexing
use uniqcol.Common.{
  Bool, Bytes, [], bit_and, bit_or, bit_xor, false, get_or, if◌then◌else◌, set, suc, true, zero, ℕ,
  ◌%◌, ◌*◌, ◌+◌, ◌/◌, ◌==◌, ◌^◌, ◌∷◌,
}

pub record Filter : Type 0 where
  pub m : ℕ
  pub k : ℕ
  pub bits : Bytes
  pub n_added : ℕ

abbrev pub u64_mod : ℕ
u64_mod = 0x1_0000_0000_0000_0000

-- `fnv.New128a`: the offset basis, the prime, and the loop of `Write`.
abbrev fnv_basis : ℕ
fnv_basis = 0x6c62_272e_07bb_0142_62b8_2175_6295_c58d

abbrev fnv_prime : ℕ
fnv_prime = 0x1000000000000000000013b

unfoldable pub fnv_write : ℕ → Bytes → ℕ
fnv_write h [] = h
fnv_write h (b ∷ bs) =
    fnv_write (bit_xor h b * fnv_prime % 0x1_0000_0000_0000_0000_0000_0000_0000_0000) bs

-- The high and the low half of the sum.
unfoldable pub hash128 : Bytes → ℕ × ℕ
unfolding fnv_write
hash128 key = let sum = fnv_write fnv_basis key in (sum / u64_mod, sum % u64_mod)

-- `(h1 + uint64(i)*h2) % f.m`
unfoldable pub position : ℕ → ℕ × ℕ → ℕ → ℕ
position m (h1, h2) i = (h1 + i * h2) % u64_mod % m

-- `f.bits[idx/8] |= 1 << (idx % 8)` in an array with room; Indexing has it with the panic out of range.
unfoldable pub set_bit : Bytes → ℕ → Bytes
set_bit bits idx = set bits (idx / 8) (bit_or (get_or bits (idx / 8) 0) (2 ^ (idx % 8)))

-- `f.bits[idx/8]&(1<<(idx%8)) == 0` in an array with room; Indexing has it with the panic out of range.
unfoldable pub bit_clear : Bytes → ℕ → Bool
bit_clear bits idx = bit_and (get_or bits (idx / 8) 0) (2 ^ (idx % 8)) == 0

-- The loops `for i := range f.k` with `n` rounds left.
unfoldable pub add_loop : ℕ → ℕ → (ℕ → ℕ) → Bytes → Bytes
unfolding set_bit
add_loop zero i pos bits = bits
add_loop (suc n) i pos bits = add_loop n (i + 1) pos (set_bit bits (pos i))

unfoldable pub contains_loop : ℕ → ℕ → (ℕ → ℕ) → Bytes → Bool
unfolding bit_clear
contains_loop zero i pos bits = true
contains_loop (suc n) i pos bits =
    if bit_clear bits (pos i) then false else contains_loop n (i + 1) pos bits

unfoldable pub add : Filter → Bytes → Filter
unfolding add_loop position hash128
add f key = record f {
  bits = add_loop f.k 0 (position f.m (hash128 key)) f.bits;
  n_added = (f.n_added + 1) % u64_mod;
}

unfoldable pub contains : Filter → Bytes → Bool
unfolding contains_loop position hash128
contains f key = contains_loop f.k 0 (position f.m (hash128 key)) f.bits

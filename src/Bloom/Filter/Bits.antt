-- ===== src/Bloom/Filter/Bits.antt =====
-- One bit of the array: what `set_bit` does to every bit, and what the loops over the positions do.
use uniqcol.Common.{
  All, Bool, Bytes, [], arith, bit_and, bit_or, false, get_or, get_or-set_ne, get_or-set_self,
  if◌then◌else◌, length, length-set, ltb, not, refl, set, suc, true, zero, ℕ, ℕ_discrete, ◌%◌, ◌&&◌,
  ◌*◌, ◌/◌, ◌<◌, ◌==◌, ◌^◌, ◌∷◌, ◌≡◌, ◌≤◌,
}
use uniqcol.Bloom.Filter.{set_bit, bit_clear}
use uniqcol.Binary.{IsByte}

-- Whether a test succeeds on all numbers below a bound: the laws of single bytes are evaluated.
every : (ℕ → Bool) → ℕ → Bool
every test zero = true
every test (suc bound) = every test bound && test bound

every-at : (test : ℕ → Bool) (bound i : ℕ) → i < bound → every test bound ≡ true → test i ≡ true
unfolding every
every-at test zero i below passed = absurd (omega arith)
every-at test (suc bound) i below passed = ground (arith, every-at test bound i)

-- In a byte `b` with bit `j` set, bit `i` is as before unless it is bit `j`.
abbrev bit_law : ℕ → ℕ → ℕ → Bool
bit_law b j i =
    ltb (bit_or b (2 ^ j)) 256
    && (if j == i
        then not (bit_and (bit_or b (2 ^ j)) (2 ^ i) == 0)
        else (bit_and (bit_or b (2 ^ j)) (2 ^ i) == bit_and b (2 ^ i)))

bit_table : every (λ b. every (λ j. every (bit_law b j) 8) 8) 256 ≡ true
unfolding every
bit_table = refl

bit_law_holds : (b j i : ℕ) → b < 256 → j < 8 → i < 8 → bit_law b j i ≡ true
bit_law_holds b j i hb hj hi =
    let at_byte = every-at (λ c. every (λ k. every (bit_law c k) 8) 8) 256 b hb bit_table in
    every-at (bit_law b j) 8 i hi (every-at (λ k. every (bit_law b k) 8) 8 j hj at_byte)

byte_law :
    (b j i : ℕ)
    → b < 256
    → j < 8
    → i < 8
    → (bit_or b (2 ^ j) < 256)
      × ((bit_and (bit_or b (2 ^ j)) (2 ^ i) == 0)
          ≡ (if j == i then false else (bit_and b (2 ^ i) == 0)))
byte_law b j i hb hj hi = ground (arith, bit_law_holds b j i hb hj hi)

get_or-IsByte : (bits : Bytes) (i : ℕ) → All IsByte bits → get_or bits i 0 < 256
get_or-IsByte [] i h = omega arith
get_or-IsByte (b ∷ bs) zero (h, hs) = h
get_or-IsByte (b ∷ bs) (suc i) (h, hs) = get_or-IsByte bs i hs

set-IsByte : (bits : Bytes) (i v : ℕ) → All IsByte bits → v < 256 → All IsByte (set bits i v)
set-IsByte [] i v h hv = tt
set-IsByte (b ∷ bs) zero v (h, hs) hv = (hv, hs)
set-IsByte (b ∷ bs) (suc i) v (h, hs) hv = (h, set-IsByte bs i v hs hv)

-- A bit array: bytes, with room for the bits below `m`.
pub record IsBits (m : ℕ) (bits : Bytes) : Type 0 where
  pub bytes : All IsByte bits
  pub room : m ≤ 8 * length bits

pub set_bit-IsBits : (m : ℕ) (bits : Bytes) (j : ℕ) → IsBits m bits → IsBits m (set_bit bits j)
unfolding set_bit
set_bit-IsBits m bits j h = record {
  bytes =
      set-IsByte bits (j / 8) _ h.bytes
        (byte_law (get_or bits (j / 8) 0) (j % 8) 0 (get_or-IsByte bits (j / 8) h.bytes)
          (omega arith) (omega arith)).0;
  room =
      omega (arith, h.room, length-set bits (j / 8) (bit_or (get_or bits (j / 8) 0) (2 ^ (j % 8))));
}

pub length-set_bit : (bits : Bytes) (j : ℕ) → length (set_bit bits j) ≡ length bits
unfolding set_bit
length-set_bit bits j = length-set bits (j / 8) _

pub bit_clear-set_bit :
    (m : ℕ) (bits : Bytes) (j x : ℕ)
    → IsBits m bits
    → j < m
    → bit_clear (set_bit bits j) x ≡ (if j == x then false else bit_clear bits x)
unfolding set_bit bit_clear
bit_clear-set_bit m bits j x h hj = elim (ℕ_discrete (j / 8) (x / 8)) [
  | yes same ↦
      rw
        (
          ← same,
          get_or-set_self bits (j / 8) (bit_or (get_or bits (j / 8) 0) (2 ^ (j % 8))) 0
              (omega (arith, h.room)),
          same_byte,
        )
        (ground (arith, same))
  | no other ↦
      rw (get_or-set_ne bits (j / 8) (x / 8) (bit_or (get_or bits (j / 8) 0) (2 ^ (j % 8))) 0 other)
        (ground (arith, other))
]
  where
    same_byte :
        (bit_and (bit_or (get_or bits (j / 8) 0) (2 ^ (j % 8))) (2 ^ (x % 8)) == 0)
        ≡ (if j % 8 == x % 8 then false else (bit_and (get_or bits (j / 8) 0) (2 ^ (x % 8)) == 0))
    same_byte =
        (byte_law (get_or bits (j / 8) 0) (j % 8) (x % 8) (get_or-IsByte bits (j / 8) h.bytes)
          (omega arith) (omega arith)).1

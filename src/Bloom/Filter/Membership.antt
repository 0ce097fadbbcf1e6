-- ===== src/Bloom/Filter/Membership.antt =====
-- What `Contains` answers after any number of calls of `Add`.
use uniqcol.Common.{
  ==_refl, All, Bool, Bytes, arith, false, if◌then◌else◌, length, refl, suc, true, zero, ℕ,
  ℕ_discrete, ◌+◌, ◌/◌, ◌<◌, ◌==◌, ◌||◌, ◌↔◌, ◌∙◌, ◌≡◌, ◌≤◌,
}
use uniqcol.Bloom.Filter.Bits.{IsBits, set_bit-IsBits, length-set_bit, bit_clear-set_bit}
use uniqcol.Bloom.Filter.{
  Filter, u64_mod, hash128, position, set_bit, bit_clear, add_loop, contains_loop, add, contains,
}
use uniqcol.Binary.{IsByte}

pub record IsValid (f : Filter) : Type 0 where
  pub m_pos : 0 < f.m
  pub m_fits : f.m + 7 < u64_mod
  pub k_pos : 1 ≤ f.k
  pub k_max : f.k ≤ 30
  pub bytes : All IsByte f.bits
  pub sized : length f.bits ≡ (f.m + 7) / 8
  pub added_fits : f.n_added < u64_mod

pub IsValid-IsBits : (f : Filter) → IsValid f → IsBits f.m f.bits
IsValid-IsBits f v = record { bytes = v.bytes; room = omega (arith, v.sized) }

pub position-lt : (m : ℕ) (h : ℕ × ℕ) (i : ℕ) → 0 < m → position m h i < m
unfolding position
position-lt m (h1, h2) i h = omega arith

-- Whether `x` is one of the `n` positions from the `i`-th on.
unfoldable pub hits : ℕ → ℕ → (ℕ → ℕ) → ℕ → Bool
hits zero i pos x = false
hits (suc n) i pos x = pos i == x || hits n (i + 1) pos x

pub hits_at : (n i : ℕ) (pos : ℕ → ℕ) (j : ℕ) → i ≤ j → j < i + n → hits n i pos (pos j) ≡ true
unfolding hits
hits_at zero i pos j lo hi = absurd (omega arith)
hits_at (suc n) i pos j lo hi = elim (ℕ_discrete i j) [
  | yes e ↦ rw e (rw (==_refl (pos j)))
  | no ne ↦ ground (arith, hits_at n (i + 1) pos j)
]

module _ (m : ℕ) (pos : ℕ → ℕ) (in_range : (i : ℕ) → pos i < m) where
  bit_clear-add_loop :
      (n i : ℕ) (bits : Bytes) (x : ℕ)
      → IsBits m bits
      → bit_clear (add_loop n i pos bits) x ≡ (if hits n i pos x then false else bit_clear bits x)
  unfolding add_loop hits
  bit_clear-add_loop zero i bits x h = refl
  bit_clear-add_loop (suc n) i bits x h = ground (
    arith,
    bit_clear-add_loop n (i + 1) (set_bit bits (pos i)) x (set_bit-IsBits m bits (pos i) h),
    bit_clear-set_bit m bits (pos i) x h (in_range i),
  )

  add_loop-IsBits : (n i : ℕ) (bits : Bytes) → IsBits m bits → IsBits m (add_loop n i pos bits)
  unfolding add_loop
  add_loop-IsBits zero i bits h = h
  add_loop-IsBits (suc n) i bits h =
      add_loop-IsBits n (i + 1) (set_bit bits (pos i)) (set_bit-IsBits m bits (pos i) h)

length-add_loop :
    (n i : ℕ) (pos : ℕ → ℕ) (bits : Bytes) → length (add_loop n i pos bits) ≡ length bits
unfolding add_loop
length-add_loop zero i pos bits = refl
length-add_loop (suc n) i pos bits =
    length-add_loop n (i + 1) pos (set_bit bits (pos i)) ∙ length-set_bit bits (pos i)

-- The loop of `Contains` succeeds exactly when the bit at each position is set.
contains_loop_sound :
    (n i : ℕ) (pos : ℕ → ℕ) (bits : Bytes)
    → contains_loop n i pos bits ≡ true
    → (j : ℕ) → i ≤ j
    → j < i + n
    → bit_clear bits (pos j) ≡ false
unfolding contains_loop
contains_loop_sound zero i pos bits h j lo hi = absurd (omega arith)
contains_loop_sound (suc n) i pos bits h j lo hi = elim (ℕ_discrete i j) [
  | yes e ↦ rw (← e) (ground arith)
  | no ne ↦ ground (arith, contains_loop_sound n (i + 1) pos bits (ground arith) j)
]

contains_loop_complete :
    (n i : ℕ) (pos : ℕ → ℕ) (bits : Bytes)
    → ((j : ℕ) → i ≤ j → j < i + n → bit_clear bits (pos j) ≡ false)
    → contains_loop n i pos bits ≡ true
unfolding contains_loop
contains_loop_complete zero i pos bits h = refl
contains_loop_complete (suc n) i pos bits h =
    rw (h i (omega arith) (omega arith))
      (contains_loop_complete n (i + 1) pos bits (λ j lo hi. h j (omega arith) (omega arith)))

-- Adding a key keeps the filter well formed.
pub add-IsValid : (f : Filter) (key : Bytes) → IsValid f → IsValid (add f key)
unfolding add
add-IsValid f key v = record {
  m_pos = v.m_pos;
  m_fits = v.m_fits;
  k_pos = v.k_pos;
  k_max = v.k_max;
  bytes =
      (add_loop-IsBits f.m (position f.m (hash128 key)) (λ i. position-lt f.m _ i v.m_pos) f.k 0
        f.bits (IsValid-IsBits f v)).bytes;
  sized = length-add_loop f.k 0 _ f.bits ∙ v.sized;
  added_fits = omega arith;
}

-- The `i`-th position of a key.
abbrev pub spot : Filter → Bytes → ℕ → ℕ
spot f key i = position f.m (hash128 key) i

-- The bits of the filter after `Add` are the old ones and the positions of the key.
pub bit_clear-add :
    (f : Filter) (key : Bytes) (x : ℕ)
    → IsValid f
    → bit_clear (add f key).bits x
      ≡ (if hits f.k 0 (spot f key) x then false else bit_clear f.bits x)
unfolding add
bit_clear-add f key x v =
    bit_clear-add_loop f.m _ (λ i. position-lt f.m _ i v.m_pos) f.k 0 f.bits x (IsValid-IsBits f v)

-- `Contains` holds exactly when each of the `k` positions of the key is set.
pub contains_iff :
    (f : Filter) (key : Bytes)
    → (contains f key ≡ true) ↔ ((i : ℕ) → i < f.k → bit_clear f.bits (spot f key i) ≡ false)
unfolding contains
contains_iff f key = (
  λ h i hi. contains_loop_sound f.k 0 (spot f key) f.bits h i (omega arith) (omega arith),
  λ h. contains_loop_complete f.k 0 (spot f key) f.bits (λ j lo hi. h j (omega arith)),
)

pub add-k : (f : Filter) (key : Bytes) → ((add f key).k ≡ f.k) × ((add f key).m ≡ f.m)
unfolding add
add-k f key = (refl, refl)

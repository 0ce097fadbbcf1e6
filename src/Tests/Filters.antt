-- ===== src/Tests/Filters.antt =====
-- The Bloom filter at small filters.
use uniqcol.Common.{All, Bytes, [], arith, false, ok, refl, true, ℕ, ◌<◌, ◌↔◌, ◌∷◌, ◌≡◌}
use uniqcol.Tests.Floating.{fixed_point, fixed_point-IsIeee}
use uniqcol.Bloom.Sizing.{new}
use uniqcol.Bloom.Sizing.Laws.{new-IsValid}
use uniqcol.Bloom.Filter.{Filter, add, contains, hash128, position}
use uniqcol.Bloom.Filter.Membership.{IsValid}
use uniqcol.Bloom.Filter.History.{IsEmpty, add_all, covered, contains-add_all, contains-add_all_iff}
use uniqcol.Bloom.Wire.{marshal_binary, unmarshal_binary}
use uniqcol.Bloom.Wire.RoundTrip.{
  unmarshal_binary-marshal_binary, unmarshal_binary-IsValid, unmarshal_binary_wraps,
}
use uniqcol.Binary.{uvarint, uint_le, IsByte}

-- The empty filter for three keys.
abbrev pub small : Filter
small = record { m = 29; k = 7; bits = 0 ∷ 0 ∷ 0 ∷ 0 ∷ []; n_added = 0 }

abbrev pub key_a : Bytes
key_a = b'a' ∷ []

abbrev pub key_b : Bytes
key_b = b'b' ∷ []

small_built : new fixed_point 3 (false, 10) ≡ ok small
unfolding new
small_built = refl

pub small-IsValid : IsValid small
small-IsValid = record {
  m_pos = omega arith;
  m_fits = omega arith;
  k_pos = omega arith;
  k_max = omega arith;
  bytes = (omega arith, (omega arith, (omega arith, (omega arith, tt))));
  sized = refl;
  added_fits = omega arith;
}

new-IsValid_example : IsValid small × IsEmpty small × (small.n_added ≡ 0)
new-IsValid_example = new-IsValid fixed_point fixed_point-IsIeee 3 (false, 10) small small_built

contains-add_all_example : contains (add_all small (key_a ∷ key_b ∷ [])) key_b ≡ true
contains-add_all_example = contains-add_all small (key_a ∷ []) key_b [] small-IsValid

contains-add_all_iff_example :
    (contains (add_all small (key_a ∷ [])) key_b ≡ true)
    ↔ ((i : ℕ) → i < 7 → covered 29 7 (key_a ∷ []) (position 29 (hash128 key_b) i) ≡ true)
contains-add_all_iff_example =
    contains-add_all_iff small (key_a ∷ []) key_b small-IsValid
      (new-IsValid fixed_point fixed_point-IsIeee 3 (false, 10) small small_built).1

-- Another key is not in the filter.
absent_key : contains (add small key_a) key_b ≡ false
unfolding contains add
absent_key = refl

unmarshal_binary-marshal_binary_example : unmarshal_binary (marshal_binary small) ≡ ok small
unmarshal_binary-marshal_binary_example = unmarshal_binary-marshal_binary small small-IsValid

abbrev small_bytes : Bytes
small_bytes =
    29 ∷ 0 ∷ 0 ∷ 0 ∷ 0 ∷ 0 ∷ 0 ∷ 0 ∷ 7 ∷ 0 ∷ 0 ∷ 0 ∷ 0 ∷ 0 ∷ 0 ∷ 0 ∷ 0 ∷ 4 ∷ 0 ∷ 0 ∷ 0 ∷ 0 ∷ []

small_bytes-IsByte : All IsByte small_bytes
small_bytes-IsByte = ground arith

small_read : unmarshal_binary small_bytes ≡ ok small
unfolding unmarshal_binary uvarint uint_le
small_read = refl

unmarshal_binary-IsValid_example : IsValid small
unmarshal_binary-IsValid_example =
    unmarshal_binary-IsValid small_bytes small small_bytes-IsByte small_read (omega arith)

-- No bits at all, for the largest `m`.
abbrev bare : Filter
bare = record { m = 0xffff_ffff_ffff_ffff; k = 1; bits = []; n_added = 0 }

unmarshal_binary_wraps_example : unmarshal_binary (marshal_binary bare) ≡ ok bare
unmarshal_binary_wraps_example =
    unmarshal_binary_wraps bare (omega arith) (omega arith) refl (omega arith) (omega arith)
      (omega arith)

-- ===== src/Bloom/Filter/History.antt =====
-- A filter over its history: the keys that were added, one after the other.
use uniqcol.Common.{
  Bool, Bytes, List, [], arith, false, if◌then◌else◌, refl, true, ℕ, ◌++◌, ◌<◌, ◌||◌, ◌↔◌, ◌∷◌, ◌≡◌,
}
use uniqcol.Bloom.Filter.Membership.{
  IsValid, hits, add-IsValid, spot, bit_clear-add, contains_iff, hits_at, add-k,
}
use uniqcol.Bloom.Filter.{Filter, hash128, position, bit_clear, add, contains}

-- Calls of `Add` in a row.
unfoldable pub add_all : Filter → List Bytes → Filter
unfolding add
add_all f [] = f
add_all f (key ∷ keys) = add_all (add f key) keys

-- Whether one of the keys has the position `x`.
unfoldable pub covered : ℕ → ℕ → List Bytes → ℕ → Bool
unfolding hits
covered m k [] x = false
covered m k (key ∷ keys) x = hits k 0 (position m (hash128 key)) x || covered m k keys x

-- No bit is set.
abbrev pub IsEmpty : Filter → Type 0
IsEmpty f = (x : ℕ) → bit_clear f.bits x ≡ true

-- What a key asks of the array stays there while other keys are added.
pub contains-add :
    (f : Filter) (old key : Bytes)
    → IsValid f
    → contains f old ≡ true
    → contains (add f key) old ≡ true
contains-add f old key v h = (contains_iff (add f key) old).1 go
  where
    go : (i : ℕ) → i < (add f key).k → bit_clear (add f key).bits (spot (add f key) old i) ≡ false
    go i hi =
        ground
          (arith, add-k f key, bit_clear-add f key (spot f old i) v, (contains_iff f old).0 h i)

pub contains-add_self : (f : Filter) (key : Bytes) → IsValid f → contains (add f key) key ≡ true
contains-add_self f key v = (contains_iff (add f key) key).1 go
  where
    go : (i : ℕ) → i < (add f key).k → bit_clear (add f key).bits (spot (add f key) key i) ≡ false
    go i hi =
        ground
          (arith, add-k f key, bit_clear-add f key (spot f key i) v, hits_at f.k 0 (spot f key) i)

pub contains-add_all_old :
    (f : Filter) (key : Bytes) (keys : List Bytes)
    → IsValid f
    → contains f key ≡ true
    → contains (add_all f keys) key ≡ true
unfolding add_all
contains-add_all_old f key [] v h = h
contains-add_all_old f key (k ∷ ks) v h =
    contains-add_all_old (add f k) key ks (add-IsValid f k v) (contains-add f key k v h)

-- No false negatives: a key that was added to a well-formed filter is reported, whichever keys were
-- added before it and after it.
pub contains-add_all :
    (f : Filter) (before : List Bytes) (key : Bytes) (after : List Bytes)
    → IsValid f
    → contains (add_all f (before ++ key ∷ after)) key ≡ true
unfolding add_all
contains-add_all f [] key after v =
    contains-add_all_old (add f key) key after (add-IsValid f key v) (contains-add_self f key v)
contains-add_all f (b ∷ bs) key after v =
    contains-add_all (add f b) bs key after (add-IsValid f b v)

add_all-k :
    (f : Filter) (keys : List Bytes) → ((add_all f keys).k ≡ f.k) × ((add_all f keys).m ≡ f.m)
unfolding add_all
add_all-k f [] = (refl, refl)
add_all-k f (key ∷ keys) = ground (arith, add_all-k (add f key) keys, add-k f key)

bit_clear-add_all :
    (f : Filter) (keys : List Bytes) (x : ℕ)
    → IsValid f
    → bit_clear (add_all f keys).bits x
      ≡ (if covered f.m f.k keys x then false else bit_clear f.bits x)
unfolding add_all covered
bit_clear-add_all f [] x v = refl
bit_clear-add_all f (key ∷ keys) x v = ground (
  arith,
  bit_clear-add_all (add f key) keys x (add-IsValid f key v),
  bit_clear-add f key x v,
  add-k f key,
)

-- False positives exactly: a well-formed filter that started without a set bit reports a key if and
-- only if each of the key's positions is a position of some key that was added.
pub contains-add_all_iff :
    (f : Filter) (keys : List Bytes) (key : Bytes)
    → IsValid f
    → IsEmpty f
    → (contains (add_all f keys) key ≡ true)
      ↔ ((i : ℕ) → i < f.k → covered f.m f.k keys (position f.m (hash128 key) i) ≡ true)
contains-add_all_iff f keys key v empty =
    (there, λ h. (contains_iff (add_all f keys) key).1 (back h))
  where
    there :
        contains (add_all f keys) key ≡ true
        → (i : ℕ) → i < f.k
        → covered f.m f.k keys (position f.m (hash128 key) i) ≡ true
    there h i hi = ground (
      arith,
      add_all-k f keys,
      (contains_iff (add_all f keys) key).0 h i,
      bit_clear-add_all f keys (spot f key i) v,
      empty (spot f key i),
    )

    back :
        ((i : ℕ) → i < f.k → covered f.m f.k keys (position f.m (hash128 key) i) ≡ true)
        → (i : ℕ) → i < (add_all f keys).k
        → bit_clear (add_all f keys).bits (spot (add_all f keys) key i) ≡ false
    back h i hi = ground (
      arith,
      add_all-k f keys,
      h i,
      bit_clear-add_all f keys (spot f key i) v,
      empty (spot f key i),
    )

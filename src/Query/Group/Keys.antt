-- ===== src/Query/Group/Keys.antt =====
-- The map of the groups and the list of its keys.
use uniqcol.Common.{
  All, All-append, Bool-cases, List, [], ap, arith, false, inl, inr, map, none, refl, some,
  some-injective, sym, true, ℕ, ◌++◌, ◌+◌, ◌∙◌, ◌∷◌, ◌≡◌,
}
use uniqcol.Query.{FloatOps}
use uniqcol.Query.Group.{Accumulator, GroupTable, Groups, find_group, put_group, value_eq}
use uniqcol.Storage.Types.{Value}

abbrev pub keys_of : GroupTable → List Value
keys_of table = map (λ (p : Value × Accumulator). p.0) table

unfoldable pub total_count : GroupTable → ℕ
total_count [] = 0
total_count ((k, acc) ∷ rest) = acc.count + total_count rest

-- No key equals a later one.
abbrev pub Apart : FloatOps → List Value → Type 0
Apart fl [] = Unit
Apart fl (k ∷ ks) = All (λ k'. value_eq fl k k' ≡ false) ks × Apart fl ks

-- The list of keys is that of the map, in its order.
abbrev pub Keyed : FloatOps → Groups → Type 0
Keyed fl g = (keys_of g.table ≡ g.keys) × Apart fl g.keys

pub find_group_hit :
    (fl : FloatOps) (key k : Value) (acc : Accumulator) (rest : GroupTable)
    → value_eq fl k key ≡ true
    → (find_group fl key ((k, acc) ∷ rest) ≡ some acc)
      × ((acc' : Accumulator) → put_group fl key acc' ((k, acc) ∷ rest) ≡ (k, acc') ∷ rest)
unfolding find_group put_group
find_group_hit fl key k acc rest h = (rw h refl, λ acc'. rw h refl)

find_group_miss :
    (fl : FloatOps) (key k : Value) (acc : Accumulator) (rest : GroupTable)
    → value_eq fl k key ≡ false
    → (find_group fl key ((k, acc) ∷ rest) ≡ find_group fl key rest)
      × ((acc' : Accumulator)
          → put_group fl key acc' ((k, acc) ∷ rest) ≡ (k, acc) ∷ put_group fl key acc' rest)
unfolding find_group put_group
find_group_miss fl key k acc rest h = (rw h refl, λ acc'. rw h refl)

-- Replacing the accumulator of a key.
pub put_group_found :
    (fl : FloatOps) (key : Value) (acc acc' : Accumulator) (table : GroupTable)
    → find_group fl key table ≡ some acc
    → (keys_of (put_group fl key acc' table) ≡ keys_of table)
      × (total_count (put_group fl key acc' table) + acc.count ≡ total_count table + acc'.count)
unfolding total_count find_group
put_group_found fl key acc acc' [] h = cc
put_group_found fl key acc acc' ((k, old) ∷ rest) h = elim (Bool-cases (value_eq fl k key)) [
  | inl same ↦
      let (found, put) = find_group_hit fl key k old rest same in
      let it : old ≡ acc = some-injective _ _ (sym found ∙ h) in
      (
        ap keys_of (put acc'),
        ap (λ (t : GroupTable). total_count t + acc.count) (put acc')
            ∙ omega (arith, ap (λ (a : Accumulator). a.count) it),
      )
  | inr other ↦
      let (found, put) = find_group_miss fl key k old rest other in
      let (keys, total) = put_group_found fl key acc acc' rest (sym found ∙ h) in
      (
        ap keys_of (put acc') ∙ ap (λ ks. k ∷ ks) keys,
        ap (λ (t : GroupTable). total_count t + acc.count) (put acc') ∙ omega (arith, total),
      )
]

-- Adding a key.
pub put_group_new :
    (fl : FloatOps) (key : Value) (acc : Accumulator) (table : GroupTable)
    → find_group fl key table ≡ none
    → (put_group fl key acc table ≡ table ++ (key, acc) ∷ [])
      × All (λ k. value_eq fl k key ≡ false) (keys_of table)
unfolding put_group
put_group_new fl key acc [] h = (refl, tt)
put_group_new fl key acc ((k, old) ∷ rest) h = elim (Bool-cases (value_eq fl k key)) [
  | inl same ↦ cc (sym (find_group_hit fl key k old rest same).0 ∙ h)
  | inr other ↦
      let (found, put) = find_group_miss fl key k old rest other in
      let (next, apart) = put_group_new fl key acc rest (sym found ∙ h) in
      (put acc ∙ ap (λ (t : GroupTable). (k, old) ∷ t) next, (other, apart))
]

pub total_count-append : (t u : GroupTable) → total_count (t ++ u) ≡ total_count t + total_count u
unfolding total_count
total_count-append [] u = omega arith
total_count-append ((k, acc) ∷ t) u = omega (arith, total_count-append t u)

pub Apart-append :
    (fl : FloatOps) (ks : List Value) (key : Value)
    → Apart fl ks
    → All (λ k. value_eq fl k key ≡ false) ks
    → Apart fl (ks ++ key ∷ [])
Apart-append fl [] key h apart = (tt, tt)
Apart-append fl (k ∷ ks) key (h, hs) (a, apart) =
    (All-append _ ks (key ∷ []) h (a, tt), Apart-append fl ks key hs apart)

-- Keys that differ from what is looked for are passed over.
pub find_group-append :
    (fl : FloatOps) (key : Value) (pre rest : GroupTable)
    → All (λ k. value_eq fl k key ≡ false) (keys_of pre)
    → find_group fl key (pre ++ rest) ≡ find_group fl key rest
find_group-append fl key [] rest h = refl
find_group-append fl key ((k, acc) ∷ pre) rest (h, hs) =
    (find_group_miss fl key k acc (pre ++ rest) h).0 ∙ find_group-append fl key pre rest hs

All_at {ℓ κ} :
    {A : Type ℓ} (P : A → Type κ) (xs : List A) (y : A) (ys : List A) → All P (xs ++ y ∷ ys) → P y
All_at P [] y ys (h, hs) = h
All_at P (x ∷ xs) y ys (h, hs) = All_at P xs y ys hs

-- The keys in front of a key differ from it.
pub Apart-before :
    (fl : FloatOps) (ks : List Value) (key : Value) (rest : List Value)
    → Apart fl (ks ++ key ∷ rest)
    → All (λ k. value_eq fl k key ≡ false) ks
Apart-before fl [] key rest h = tt
Apart-before fl (k ∷ ks) key rest (h, hs) = (All_at _ ks key rest h, Apart-before fl ks key rest hs)

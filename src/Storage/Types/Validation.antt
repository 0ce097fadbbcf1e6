-- ===== src/Storage/Types/Validation.antt =====
-- `Validate` accepts exactly the schemas with different column names and a key among them.
use uniqcol.Common.{
  Bool-cases, Bytes, List, [], arith, bytes_eq, bytes_eq_iff, fail_if-eq-ok, false, inl, inr,
  length, ok, refl, subst, suc, sym, true, zero, ℕ, ◌==◌, ◌↔◌, ◌∷◌, ◌≡◌, ◌⊎◌,
}
use uniqcol.Query.Group.{fresh}
use uniqcol.Storage.Types.Schemas.{Fresh, DistinctNames, First, bytes_eq-of_ne, ne_of_bytes_eq}
use uniqcol.Storage.Types.{Column, Schema, seen_name, validate_columns, validate}
use uniqcol.Bloom.Sizing.{new}

-- No column has a name that was seen.
abbrev Unseen : List Bytes → List Column → Type 0
Unseen seen [] = Unit
Unseen seen (c ∷ cs) = (seen_name c.name seen ≡ false) × Unseen seen cs

-- A key is among the columns.
abbrev pub HasKey : Bytes → List Column → Type 0
HasKey pk cs = (i : ℕ) × First pk i cs

Unseen-push :
    (name : Bytes) (seen : List Bytes) (cs : List Column)
    → Unseen seen cs
    → Fresh name cs
    → Unseen (name ∷ seen) cs
unfolding seen_name
Unseen-push name seen [] h f = tt
Unseen-push name seen (c ∷ cs) (h, hs) (f, fs) =
    (rw (bytes_eq-of_ne name c.name (λ e. f (sym e))) h, Unseen-push name seen cs hs fs)

Unseen-pop :
    (name : Bytes) (seen : List Bytes) (cs : List Column)
    → Unseen (name ∷ seen) cs
    → Unseen seen cs × Fresh name cs
unfolding seen_name
Unseen-pop name seen [] h = (tt, tt)
Unseen-pop name seen (c ∷ cs) (h, hs) =
    let (older, fresh) = Unseen-pop name seen cs hs in
    let differs : bytes_eq name c.name ≡ false = ground arith in
    ((ground arith, older), (λ e. ne_of_bytes_eq name c.name differs (sym e), fresh))

-- The key was seen before, or is a column still to come.
abbrev KeySomewhere : Bytes → List Bytes → List Column → Type 0
KeySomewhere pk seen cs = (seen_name pk seen ≡ true) ⊎ HasKey pk cs

key_push :
    (pk : Bytes) (seen : List Bytes) (c : Column) (cs : List Column)
    → KeySomewhere pk seen (c ∷ cs)
    → KeySomewhere pk (c.name ∷ seen) cs
unfolding seen_name
key_push pk seen c cs (inl h) = inl (ground arith)
key_push pk seen c cs (inr (zero, h)) = inl (rw ((bytes_eq_iff c.name pk).1 h))
key_push pk seen c cs (inr (suc i, h)) = inr (i, h.1)

key_pop :
    (pk : Bytes) (seen : List Bytes) (c : Column) (cs : List Column)
    → KeySomewhere pk (c.name ∷ seen) cs
    → KeySomewhere pk seen (c ∷ cs)
unfolding seen_name
key_pop pk seen c cs h = elim (Bool-cases (bytes_eq c.name pk)) [
  | inl same ↦ inr (0, (bytes_eq_iff c.name pk).0 same)
  | inr other ↦ elim h [
    | inl old ↦ inl (rw other at old)
    | inr (i, later) ↦ inr (suc i, (ne_of_bytes_eq c.name pk other, later))
  ]
]

validate_columns_sound :
    (pk : Bytes) (seen : List Bytes) (cs : List Column) {u : Unit {0}}
    → validate_columns pk seen cs ≡ ok u
    → DistinctNames cs × Unseen seen cs × KeySomewhere pk seen cs
unfolding validate_columns
validate_columns_sound pk seen [] e = (tt, tt, inl (ground arith))
validate_columns_sound pk seen (c ∷ cs) e =
    let (new, rest) = fail_if-eq-ok (seen_name c.name seen) _ _ e in
    let (distinct, unseen, key) = validate_columns_sound pk (c.name ∷ seen) cs rest in
    let (older, fresh) = Unseen-pop c.name seen cs unseen in
    ((fresh, distinct), (new, older), key_pop pk seen c cs key)

validate_columns_complete :
    (pk : Bytes) (seen : List Bytes) (cs : List Column)
    → DistinctNames cs
    → Unseen seen cs
    → KeySomewhere pk seen cs
    → validate_columns pk seen cs ≡ ok tt
unfolding validate_columns
validate_columns_complete pk seen [] d h (inl k) = rw k
validate_columns_complete pk seen [] d h (inr (i, k)) = absurd k
validate_columns_complete pk seen (c ∷ cs) (f, d) (new, h) k = rw new (
    validate_columns_complete pk (c.name ∷ seen) cs d (Unseen-push c.name seen cs h f)
      (key_push pk seen c cs k))

Unseen-nil : (cs : List Column) → Unseen [] cs
unfolding seen_name
Unseen-nil [] = tt
Unseen-nil (c ∷ cs) = (refl, Unseen-nil cs)

suc_ne_zero : (n : ℕ) → (suc n == 0) ≡ false
suc_ne_zero n = ground arith

-- `Validate` returns nil exactly when the column names are pairwise different and the key is the
-- name of a column (so there is a column).
pub validate_iff :
    (s : Schema) → (validate s ≡ ok tt) ↔ (DistinctNames s.columns × HasKey s.pk s.columns)
unfolding validate seen_name
validate_iff s = (sound, complete s.columns refl)
  where
    sound : validate s ≡ ok tt → DistinctNames s.columns × HasKey s.pk s.columns
    sound e =
        let (some_columns, rest) = fail_if-eq-ok (length s.columns == 0) _ _ e in
        let (distinct, _, key) = validate_columns_sound s.pk [] s.columns rest in
        (distinct, elim key [ inl h ↦ cc | inr k ↦ k ])

    complete :
        (cs : List Column)
        → s.columns ≡ cs
        → DistinctNames s.columns × HasKey s.pk s.columns
        → validate s ≡ ok tt
    complete [] e (d, (i, k)) = absurd (subst (First s.pk i) e k)
    complete (c ∷ cs) e (d, k) =
        rw (e, validate)
          (rw (suc_ne_zero (length cs)) (
            validate_columns_complete s.pk [] (c ∷ cs) (subst DistinctNames e d)
              (Unseen-nil (c ∷ cs)) (inr (subst (HasKey s.pk) e k))))

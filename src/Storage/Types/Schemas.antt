-- ===== src/Storage/Types/Schemas.antt =====
-- What `Validate` accepts, and what `ColumnIndex` finds.
use uniqcol.Common.{
  Bool-cases, Bytes, List, [], ap, arith, bytes_eq, bytes_eq_iff, false, get_elem?, inl, inr, none,
  refl, some, some-injective, subst, suc, sym, zero, ℕ, ◌+◌, ◌↔◌, ◌∙◌, ◌∷◌, ◌≡◌, ◌≢◌,
}
use uniqcol.Query.Group.{fresh}
use uniqcol.Storage.Types.{Column, find_column, Schema, column_index}

-- No name of the list is `name`.
abbrev pub Fresh : Bytes → List Column → Type 0
Fresh name [] = Unit
Fresh name (c ∷ cs) = (c.name ≢ name) × Fresh name cs

-- The names are pairwise different.
abbrev pub DistinctNames : List Column → Type 0
DistinctNames [] = Unit
DistinctNames (c ∷ cs) = Fresh c.name cs × DistinctNames cs

-- The column at position `i` is the first of that name.
abbrev pub First : Bytes → ℕ → List Column → Type 0
First name i [] = ⊥
First name zero (c ∷ cs) = c.name ≡ name
First name (suc i) (c ∷ cs) = (c.name ≢ name) × First name i cs

pub bytes_eq-of_ne : (a b : Bytes) → a ≢ b → bytes_eq a b ≡ false
bytes_eq-of_ne a b h = ground (arith, bytes_eq_iff a b)

pub ne_of_bytes_eq : (a b : Bytes) → bytes_eq a b ≡ false → a ≢ b
ne_of_bytes_eq a b h = ground (arith, bytes_eq_iff a b)

find_column-some :
    (name : Bytes) (cs : List Column) (i j : ℕ)
    → find_column name i cs ≡ some j
    → (k : ℕ) × (j ≡ i + k) × First name k cs
unfolding find_column
find_column-some name [] i j e = cc
find_column-some name (c ∷ cs) i j e = elim (Bool-cases (bytes_eq c.name name)) [
  | inl same ↦ (0, ground (arith, rw same at e), (bytes_eq_iff c.name name).0 same)
  | inr other ↦
      let (k, at, found) = find_column-some name cs (i + 1) j (rw other at e) in
      (suc k, omega arith, (ne_of_bytes_eq c.name name other, found))
]

find_column-First :
    (name : Bytes) (cs : List Column) (i k : ℕ)
    → First name k cs
    → find_column name i cs ≡ some (i + k)
unfolding find_column
find_column-First name [] i k h = absurd h
find_column-First name (c ∷ cs) i zero h = rw ((bytes_eq_iff c.name name).1 h) (ground arith)
find_column-First name (c ∷ cs) i (suc k) (ne, h) =
    rw (bytes_eq-of_ne c.name name ne) (ground (arith, find_column-First name cs (i + 1) k h))

-- `ColumnIndex` returns `i` exactly when the column at `i` is the first one of that name.
pub column_index_iff :
    (s : Schema) (name : Bytes) (i : ℕ) → (column_index s name ≡ some i) ↔ First name i s.columns
unfolding column_index
column_index_iff s name i = (
  λ e.
      let (k, at, found) = find_column-some name s.columns 0 i e in
      let same : k ≡ i = omega arith in subst (λ n. First name n s.columns) same found,
  λ h. find_column-First name s.columns 0 i h ∙ ap some (omega arith),
)

pub Fresh-get_elem? :
    (k : ℕ) (c : Column) (name : Bytes) (cs : List Column)
    → Fresh name cs
    → get_elem? cs k ≡ some c
    → c.name ≢ name
Fresh-get_elem? k c name [] f at = cc
Fresh-get_elem? zero c name (x ∷ cs) (ne, f) at =
    subst (λ (y : Column). y.name ≢ name) (some-injective _ _ at) ne
Fresh-get_elem? (suc k) c name (x ∷ cs) (ne, f) at = Fresh-get_elem? k c name cs f at

-- The first column of a name is the only one.
pub First-get_elem? :
    (k : ℕ) (c : Column) (cs : List Column)
    → DistinctNames cs
    → get_elem? cs k ≡ some c
    → First c.name k cs
First-get_elem? k c [] d at = cc
First-get_elem? zero c (x ∷ cs) d at = ap (λ (y : Column). y.name) (some-injective _ _ at)
First-get_elem? (suc k) c (x ∷ cs) (fresh, d) at =
    (λ e. Fresh-get_elem? k c x.name cs fresh at (sym e), First-get_elem? k c cs d at)

First-column :
    (name : Bytes) (k : ℕ) (cs : List Column)
    → First name k cs
    → (c : Column) × (get_elem? cs k ≡ some c) × (c.name ≡ name)
First-column name k [] h = absurd h
First-column name zero (c ∷ cs) h = (c, refl, h)
First-column name (suc k) (c ∷ cs) (_, h) = First-column name k cs h

-- The column that `ColumnIndex` finds has the name that was looked for.
pub column_index-column :
    (s : Schema) (name : Bytes) (k : ℕ)
    → column_index s name ≡ some k
    → (c : Column) × (get_elem? s.columns k ≡ some c) × (c.name ≡ name)
column_index-column s name k e = First-column name k s.columns ((column_index_iff s name k).0 e)

find_column-none :
    (name : Bytes) (i : ℕ) (cs : List Column) → find_column name i cs ≡ none → Fresh name cs
unfolding find_column
find_column-none name i [] e = tt
find_column-none name i (c ∷ cs) e = elim (Bool-cases (bytes_eq c.name name)) [
  | inl same ↦ cc (rw same at e)
  | inr other ↦ (ne_of_bytes_eq c.name name other, find_column-none name (i + 1) cs (rw other at e))
]

pub column_index-none :
    (s : Schema) (name : Bytes) → column_index s name ≡ none → Fresh name s.columns
unfolding column_index
column_index-none s name e = find_column-none name 0 s.columns e

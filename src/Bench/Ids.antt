-- ===== src/Bench/Ids.antt =====
-- The keys of the rows that `GenRows` makes.
use uniqcol.Common.{
  All, List, [], ap, arith, get_elem?, length, none, ok, refl, some, suc, zero, ℕ, ◌++◌, ◌+◌, ◌<◌,
  ◌∷◌, ◌≡◌, ◌≤◌,
}
use uniqcol.Bench.{bench_schema, element}
use uniqcol.Storage.Buffer.{check_row}
use uniqcol.Storage.Types.{Value, Row}

-- A row that the benchmark's schema accepts, and its key.
abbrev pub HasId : ℕ → Row → Type 0
HasId i row =
    (get_elem? row 0 ≡ some (Value.int64 i))
    × (length row ≡ length bench_schema.columns)
    × (check_row bench_schema.columns row ≡ none)

-- The keys of a list of rows, one by one.
abbrev pub HaveIds : List ℕ → List Row → Type 0
HaveIds [] [] = Unit {0}
HaveIds [] (row ∷ rows) = ⊥
HaveIds (i ∷ is) [] = ⊥
HaveIds (i ∷ is) (row ∷ rows) = HasId i row × HaveIds is rows

abbrev pub count_from : ℕ → ℕ → List ℕ
count_from i zero = []
count_from i (suc n) = i ∷ count_from (i + 1) n

pub element_total {ℓ} :
    {A : Type ℓ} (xs : List A) (i : ℕ) → i < length xs → (x : A) × (element xs i ≡ ok x)
unfolding element
element_total [] i h = elim h [ ]
element_total (x ∷ xs) zero h = (x, refl)
element_total (x ∷ xs) (suc i) h = element_total xs i (omega arith)

pub element-of_get {ℓ} :
    {A : Type ℓ} (xs : List A) (i : ℕ) {x : A} → get_elem? xs i ≡ some x → element xs i ≡ ok x
unfolding element
element-of_get [] i h = cc
element-of_get (x ∷ xs) zero h = cc
element-of_get (x ∷ xs) (suc i) h = element-of_get xs i h

pub HaveIds-snoc :
    (is : List ℕ) (rows : List Row) (i : ℕ) (row : Row)
    → HaveIds is rows
    → HasId i row
    → HaveIds (is ++ i ∷ []) (rows ++ row ∷ [])
HaveIds-snoc [] [] i row hs h = (h, tt)
HaveIds-snoc [] (x ∷ rows) i row hs h = elim hs [ ]
HaveIds-snoc (j ∷ is) [] i row hs h = elim hs [ ]
HaveIds-snoc (j ∷ is) (x ∷ rows) i row (k, hs) h = (k, HaveIds-snoc is rows i row hs h)

-- The row at an index, whose key has what all the keys have.
pub HaveIds-element :
    (P : ℕ → Type 0) (is : List ℕ) (rows : List Row) (j : ℕ)
    → HaveIds is rows
    → All P is
    → j < length is
    → (row : Row) × (i : ℕ) × (element rows j ≡ ok row) × HasId i row × P i
unfolding element
HaveIds-element P [] rows j hs ps h = elim h [ ]
HaveIds-element P (i ∷ is) [] j hs ps h = elim hs [ ]
HaveIds-element P (i ∷ is) (row ∷ rows) zero (k, hs) (p, ps) h = (row, i, refl, k, p)
HaveIds-element P (i ∷ is) (row ∷ rows) (suc j) (k, hs) (p, ps) h =
    HaveIds-element P is rows j hs ps (omega arith)

pub length-count_from : (i n : ℕ) → length (count_from i n) ≡ n
length-count_from i zero = refl
length-count_from i (suc n) = ap suc (length-count_from (i + 1) n)

abbrev pub IsBetween : ℕ → ℕ → ℕ → Type 0
IsBetween low high id = (low ≤ id) × (id ≤ high)

pub count_from-IsBetween :
    (low high i n : ℕ) → low ≤ i → i + n ≤ high + 1 → All (IsBetween low high) (count_from i n)
count_from-IsBetween low high i zero h k = tt
count_from-IsBetween low high i (suc n) h k =
    ((h, omega arith), count_from-IsBetween low high (i + 1) n (omega arith) (omega arith))

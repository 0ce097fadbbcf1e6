-- ===== src/Query/Aggregate/Rows.antt =====
-- How many rows a projection gives.
use uniqcol.Common.{
  >>=-eq-ok, Bool, Bytes, List, Option, Option-cases, [], ap, arith, drop, false, get_elem?,
  if◌then◌else◌, inl, inr, length, none, ok, ok-injective, panic, refl, some, some-injective, suc,
  sym, true, zero, ℕ, ◌+◌, ◌>>=◌, ◌∙◌, ◌∷◌, ◌≡◌, ◌≤◌,
}
use uniqcol.Query.{Answer}
use uniqcol.Query.Aggregate.{
  count_selected, skipped, row_at, project_rows, read_columns, estimate_rows, exec_project,
  make_rows, exec_count,
}
use uniqcol.Storage.Segment.{Segment, Decoded}
use uniqcol.Storage.Types.{Value}

pub drop_cons {ℓ} :
    {A : Type ℓ} (xs : List A) (i : ℕ) (x : A)
    → get_elem? xs i ≡ some x
    → drop i xs ≡ x ∷ drop (suc i) xs
drop_cons [] i b h = cc
drop_cons (x ∷ xs) zero b h = ap (λ y. y ∷ xs) (some-injective _ _ h)
drop_cons (x ∷ xs) (suc i) b h = drop_cons xs i b h

-- The rounds of the loop.
project_rows_skip :
    (ds : List Decoded) (bs : List Bool) (n i : ℕ)
    → get_elem? bs i ≡ some false
    → project_rows ds (some bs) (suc n) i ≡ project_rows ds (some bs) n (i + 1)
unfolding project_rows skipped
project_rows_skip ds bs n i h = rw (skipped, h)

project_rows_take :
    (ds : List Decoded) (bs : List Bool) (n i : ℕ)
    → get_elem? bs i ≡ some true
    → project_rows ds (some bs) (suc n) i
      ≡ (row_at ds i >>= λ row. project_rows ds (some bs) n (i + 1) >>= λ rows. ok (row ∷ rows))
unfolding project_rows skipped
project_rows_take ds bs n i h = rw (skipped, h)

project_rows_beyond :
    (ds : List Decoded) (bs : List Bool) (n i : ℕ)
    → get_elem? bs i ≡ none
    → project_rows ds (some bs) (suc n) i ≡ panic
unfolding project_rows skipped
project_rows_beyond ds bs n i h = rw (skipped, h)

pub drop-length {ℓ} : {A : Type ℓ} (bs : List A) (i : ℕ) → length bs ≤ i → drop i bs ≡ []
drop-length [] zero h = refl
drop-length [] (suc i) h = refl
drop-length (b ∷ bs) zero h = absurd (omega arith)
drop-length (b ∷ bs) (suc i) h = drop-length bs i (omega arith)

pub count_selected_at :
    (bs : List Bool) (i : ℕ) (b : Bool)
    → get_elem? bs i ≡ some b
    → count_selected (drop i bs)
      ≡ (if b then suc (count_selected (drop (i + 1) bs)) else count_selected (drop (i + 1) bs))
unfolding count_selected
count_selected_at bs i b h =
    let next : i + 1 ≡ suc i = omega arith in ap count_selected (drop_cons bs i b h) ∙ rw next refl

length-project_rows :
    (ds : List Decoded) (bs : List Bool) (n i : ℕ) (rows : List (List Value))
    → i + n ≡ length bs
    → project_rows ds (some bs) n i ≡ ok rows
    → length rows ≡ count_selected (drop i bs)
unfolding project_rows count_selected
length-project_rows ds bs zero i rows size e =
    rw (drop-length bs i (omega arith)) (ap length (sym (ok-injective e)))
length-project_rows ds bs (suc n) i rows size e = elim (Option-cases (get_elem? bs i)) [
  | inl beyond ↦ cc (sym (project_rows_beyond ds bs n i beyond) ∙ e)
  | inr (false, at) ↦
      length-project_rows ds bs n (i + 1) rows (omega arith)
        (sym (project_rows_skip ds bs n i at) ∙ e)
      ∙ sym (count_selected_at bs i false at)
  | inr (true, at) ↦
      let (row, _, e₁) = >>=-eq-ok (row_at ds i) _ (sym (project_rows_take ds bs n i at) ∙ e) in
      let (more, later, e₂) = >>=-eq-ok (project_rows ds (some bs) n (i + 1)) _ e₁ in
      ap length (sym (ok-injective e₂))
      ∙ ap suc (length-project_rows ds bs n (i + 1) more (omega arith) later)
      ∙ sym (count_selected_at bs i true at)
]

length-project_rows_all :
    (ds : List Decoded) (n i : ℕ) (rows : List (List Value))
    → project_rows ds none n i ≡ ok rows
    → length rows ≡ n
unfolding project_rows skipped
length-project_rows_all ds zero i rows e = ap length (sym (ok-injective e))
length-project_rows_all ds (suc n) i rows e =
    let (row, _, e₁) = >>=-eq-ok (row_at ds i) _ e in
    let (more, later, e₂) = >>=-eq-ok (project_rows ds none n (i + 1)) _ e₁ in
    ap length (sym (ok-injective e₂)) ∙ ap suc (length-project_rows_all ds n (i + 1) more later)

-- A selection of the segment's rows.
abbrev pub Selects : Option (List Bool) → ℕ → Type 0
Selects none n = Unit
Selects (some bs) n = length bs ≡ n

pub length-rows :
    (ds : List Decoded) (selection : Option (List Bool)) (n : ℕ) (rows : List (List Value))
    → Selects selection n
    → project_rows ds selection n 0 ≡ ok rows
    → length rows ≡ estimate_rows n selection
unfolding estimate_rows
length-rows ds none n rows h e = length-project_rows_all ds n 0 rows e
length-rows ds (some bs) n rows h e = length-project_rows ds bs n 0 rows (omega (arith, h)) e

exec_project_rows :
    (s t : Segment) (cols : List Bytes) (selection : Option (List Bool)) (a : Answer)
    → Selects selection s.row_count
    → exec_project s cols selection ≡ ok (t, a)
    → length a.rows ≡ estimate_rows s.row_count selection
unfolding exec_project
exec_project_rows s t cols selection a h e =
    let (q, _, e₁) = >>=-eq-ok (read_columns s cols) _ e in
    let (_, _, e₂) = >>=-eq-ok (make_rows (estimate_rows s.row_count selection)) _ e₁ in
    let (rows, made, e₃) = >>=-eq-ok (project_rows q.1 selection s.row_count 0) _ e₂ in
    ap (λ (p : Segment × Answer). length p.1.rows) (sym (ok-injective e₃))
    ∙ length-rows q.1 selection s.row_count rows h made

pub exec_count_rows :
    (s : Segment) (selection : Option (List Bool))
    → (exec_count s selection).rows ≡ (Value.uint64 (estimate_rows s.row_count selection) ∷ []) ∷ []
unfolding exec_count estimate_rows
exec_count_rows s none = refl
exec_count_rows s (some bs) = refl

-- When a projection gives an answer, its rows are as many as `estimateRows` computes, and
-- `COUNT(*)` with the same selection answers with that number. The selection, if there is one, has
-- an entry for each row of the segment.
pub exec_count-exec_project :
    (s t : Segment) (cols : List Bytes) (selection : Option (List Bool)) (a : Answer)
    → Selects selection s.row_count
    → exec_project s cols selection ≡ ok (t, a)
    → (length a.rows ≡ estimate_rows s.row_count selection)
      × ((exec_count s selection).rows ≡ (Value.uint64 (length a.rows) ∷ []) ∷ [])
exec_count-exec_project s t cols selection a h e =
    let size = exec_project_rows s t cols selection a h e in
    (size, exec_count_rows s selection ∙ ap (λ n. (Value.uint64 n ∷ []) ∷ []) (sym size))

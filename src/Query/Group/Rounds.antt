-- ===== src/Query/Group/Rounds.antt =====
-- The rounds of the loop over the rows.
use uniqcol.Common.{
  Bool, Bytes, List, Option, Option-cases, [], ap, arith, drop, false, get_elem?, inl, inr, length,
  none, not, ok, refl, some, suc, sym, true, zero, ℕ, ◌+◌, ◌>>=◌, ◌∙◌, ◌∷◌, ◌≡◌, ◌≤◌,
}
use uniqcol.Query.Aggregate.Rows.{drop-length, count_selected_at, Selects}
use uniqcol.Query.{Query, AggregateKind, FloatOps}
use uniqcol.Query.Group.{Summed, counted, Groups, group_row, group_rows, find_group, read_summed}
use uniqcol.Query.Aggregate.{skipped, row_value_at, estimate_rows, count_selected}
use uniqcol.Storage.Segment.{Segment, Decoded}

-- The rounds of the loop that take their row.
unfoldable pub taken : Option (List Bool) → ℕ → ℕ → ℕ
taken selection zero i = 0
taken selection (suc n) i = elim (skipped selection i) [
  | ok false ↦ 1 + taken selection n (i + 1)
  | _ ↦ taken selection n (i + 1)
]

pub taken_skip :
    (selection : Option (List Bool)) (n i : ℕ)
    → skipped selection i ≡ ok true
    → taken selection (suc n) i ≡ taken selection n (i + 1)
unfolding taken
taken_skip selection n i h = rw (taken, h) refl

pub taken_take :
    (selection : Option (List Bool)) (n i : ℕ)
    → skipped selection i ≡ ok false
    → taken selection (suc n) i ≡ 1 + taken selection n (i + 1)
unfolding taken
taken_take selection n i h = rw (taken, h) refl

-- The rounds of the loop over the rows.
pub group_rows_skip :
    (fl : FloatOps) (col : Bytes) (summed : Summed) (keys : Decoded)
    (selection : Option (List Bool)) (n i : ℕ) (g : Groups)
    → skipped selection i ≡ ok true
    → group_rows fl col summed keys selection (suc n) i g
      ≡ group_rows fl col summed keys selection n (i + 1) g
unfolding group_rows
group_rows_skip fl col summed keys selection n i g h = rw (group_rows, h) refl

pub group_rows_take :
    (fl : FloatOps) (col : Bytes) (summed : Summed) (keys : Decoded)
    (selection : Option (List Bool)) (n i : ℕ) (g : Groups)
    → skipped selection i ≡ ok false
    → group_rows fl col summed keys selection (suc n) i g ≡ (
        row_value_at keys i >>= λ key.
        group_row fl col summed i key g (find_group fl key g.table) >>= λ h.
        group_rows fl col summed keys selection n (i + 1) h)
unfolding group_rows
group_rows_take fl col summed keys selection n i g h = rw (group_rows, h) refl

skipped_at :
    (bs : List Bool) (i : ℕ) (b : Bool) → get_elem? bs i ≡ some b → skipped (some bs) i ≡ ok (not b)
unfolding skipped
skipped_at bs i b h = rw (skipped, h) refl

pub get_elem?_beyond {ℓ} :
    {A : Type ℓ} (xs : List A) (i : ℕ) → get_elem? xs i ≡ none → length xs ≤ i
get_elem?_beyond [] i h = omega arith
get_elem?_beyond (x ∷ xs) zero h = cc
get_elem?_beyond (x ∷ xs) (suc i) h = omega (arith, get_elem?_beyond xs i h)

taken_all : (n i : ℕ) → taken none n i ≡ n
unfolding taken skipped
taken_all zero i = refl
taken_all (suc n) i = omega (arith, taken_all n (i + 1))

taken_selected :
    (bs : List Bool) (n i : ℕ)
    → i + n ≡ length bs
    → taken (some bs) n i ≡ count_selected (drop i bs)
unfolding taken count_selected
taken_selected bs zero i h = sym (ap count_selected (drop-length bs i (omega arith)))
taken_selected bs (suc n) i h = elim (Option-cases (get_elem? bs i)) [
  | inl beyond ↦ absurd (omega (arith, get_elem?_beyond bs i beyond))
  | inr (true, at) ↦ omega (
    arith,
    taken_take (some bs) n i (skipped_at bs i true at),
    taken_selected bs n (i + 1) (omega arith),
    count_selected_at bs i true at,
  )
  | inr (false, at) ↦
      taken_skip (some bs) n i (skipped_at bs i false at)
      ∙ taken_selected bs n (i + 1) (omega arith)
      ∙ sym (count_selected_at bs i false at)
]

-- Without a selection the loop takes every row, and with one those that it selects.
pub taken-estimate_rows :
    (selection : Option (List Bool)) (n : ℕ)
    → Selects selection n
    → taken selection n 0 ≡ estimate_rows n selection
unfolding estimate_rows
taken-estimate_rows none n h = taken_all n 0
taken-estimate_rows (some bs) n h = taken_selected bs n 0 (omega (arith, h))

pub read_summed_count :
    (s : Segment) (q : Query)
    → q.group_agg ≡ AggregateKind.count_star
    → read_summed s q ≡ ok (s, counted)
unfolding read_summed
read_summed_count s q h = rw (read_summed, h) refl

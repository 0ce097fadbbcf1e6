-- ===== src/Storage/Table/History.antt =====
-- A table over the rows that were offered to it, one call of `Insert` after the other.
use uniqcol.Common.{
  All, All-append, All-imp, Bool-cases, Bytes, List, [], append-nil, append_assoc, arith, false,
  if◌then◌else◌, inl, inr, length, refl, some, subst, true, ℕ, ◌++◌, ◌∙◌, ◌∷◌, ◌≡◌, ◌≢◌, ◌⊎◌,
}
use uniqcol.Storage.Buffer.Append.{append-Represents}
use uniqcol.Storage.Buffer.{WriteBuffer, append}
use uniqcol.Storage.Types.{ColumnType, Row, Schema}
use uniqcol.Storage.Table.Insert.{key_of, insert_rejected, insert_accepted}
use uniqcol.Storage.Table.{PkError, Table, insert, accept}
use uniqcol.Storage.Buffer.Cells.{Represents}
use uniqcol.Bloom.Sizing.{new}
use uniqcol.Bloom.Filter.Membership.{IsValid, add-IsValid}
use uniqcol.Bloom.Filter.History.{contains-add, contains-add_self}
use uniqcol.Bloom.Filter.{Filter, add, contains}

unfoldable pub insert_all : Table → List Row → Table
unfolding insert
insert_all t [] = t
insert_all t (row ∷ rows) = insert_all (insert t row).0 rows

-- The rows that were accepted.
unfoldable pub accepted_of : Table → List Row → List Row
unfolding insert
accepted_of t [] = []
accepted_of t (row ∷ rows) =
    (if (insert t row).1.accepted then row ∷ [] else []) ++ accepted_of (insert t row).0 rows

-- The keys of the rows are pairwise different.
abbrev pub DistinctKeys : ℕ → ColumnType → List Row → Type 0
DistinctKeys i t [] = Unit
DistinctKeys i t (r ∷ rs) = All (λ s. key_of i t r ≢ key_of i t s) rs × DistinctKeys i t rs

-- The filter reports the key.
abbrev pub Known : Filter → PkError ⊎ Bytes → Type 0
Known f (inl e) = ⊥
Known f (inr key) = contains f key ≡ true

-- What holds of a table with a filter after it accepted `rows`.
pub record Holds (t : Table) (f : Filter) (rows : List Row) : Type 0 where
  pub filter : t.bloom ≡ some f
  pub valid : IsValid f
  pub held : Represents t.buf rows
  pub schema : t.buf.schema ≡ t.schema
  pub known : All (λ r. Known f (key_of t.pk_idx t.pk_type r)) rows
  pub distinct : DistinctKeys t.pk_idx t.pk_type rows

DistinctKeys-snoc :
    (i : ℕ) (t : ColumnType) (rs : List Row) (r : Row)
    → DistinctKeys i t rs
    → All (λ s. key_of i t s ≢ key_of i t r) rs
    → DistinctKeys i t (rs ++ r ∷ [])
DistinctKeys-snoc i t [] r d h = (tt, tt)
DistinctKeys-snoc i t (s ∷ ss) r (ds, d) (hs, h) = (
  All-append (λ u. key_of i t s ≢ key_of i t u) ss (r ∷ []) ds (hs, tt),
  DistinctKeys-snoc i t ss r d h,
)

Known-add :
    (f : Filter) (key : Bytes) (k : PkError ⊎ Bytes) → IsValid f → Known f k → Known (add f key) k
Known-add f key (inl e) v h = h
Known-add f key (inr old) v h = contains-add f old key v h

Known-ne :
    (f : Filter) (key : Bytes) (k : PkError ⊎ Bytes)
    → contains f key ≡ false
    → Known f k
    → k ≢ inr key
Known-ne f key (inl e) new h same = h
Known-ne f key (inr old) new h same = cc

-- One accepted row.
accept-Holds :
    (t : Table) (f : Filter) (rows : List Row) (row : Row) (key : Bytes) (b : WriteBuffer)
    → Holds t f rows
    → key_of t.pk_idx t.pk_type row ≡ inr key
    → contains f key ≡ false
    → append t.buf row ≡ inr b
    → Holds (accept t b (some (add f key))).0 (add f key) (rows ++ row ∷ [])
accept-Holds t f rows row key b h is_key new stored =
    let (fits, schema_kept, held) = append-Represents t.buf b rows row h.held stored in
    record {
      filter = refl;
      valid = add-IsValid f key h.valid;
      held = held;
      schema = schema_kept ∙ h.schema;
      known =
          All-append (λ r. Known (add f key) (key_of t.pk_idx t.pk_type r)) rows (row ∷ [])
            (All-imp _ _ rows (λ r k. Known-add f key _ h.valid k) h.known)
            (rw is_key (contains-add_self f key h.valid), tt);
      distinct =
          DistinctKeys-snoc t.pk_idx t.pk_type rows row h.distinct
            (All-imp _ _ rows (λ r k. rw is_key (Known-ne f key _ new k)) h.known);
    }

-- A rejected row leaves everything as it was.
reject-Holds :
    (t : Table) (f : Filter) (rows : List Row) (n : ℕ)
    → Holds t f rows
    → Holds (record t { rejected = n }) f rows
reject-Holds t f rows n h = record {
  filter = h.filter;
  valid = h.valid;
  held = h.held;
  schema = h.schema;
  known = h.known;
  distinct = h.distinct;
}

-- What one call of `Insert` does to the invariant, by its result.
insert-Holds :
    (t : Table) (f : Filter) (rows : List Row) (row : Row)
    → Holds t f rows
    → (g : Filter) × Holds
        (insert t row).0
        g
        (rows ++ (if (insert t row).1.accepted then row ∷ [] else []))
insert-Holds t f rows row h = elim (Bool-cases (insert t row).1.accepted) [
  | inl yes_row ↦
      let (key, b, is_key, new, stored, after) = insert_accepted t row f h.filter yes_row in
      (add f key, rw (yes_row, after) (accept-Holds t f rows row key b h is_key new stored))
  | inr no_row ↦
      (f, rw (no_row, (insert_rejected t row no_row).0, append-nil) (reject-Holds t f rows _ h))
]

-- However many rows are offered, in whatever order: afterwards the buffer holds exactly the accepted
-- rows, in order, behind those it held, their keys are pairwise different, and the filter knows each.
pub insert_all-Holds :
    (t : Table) (f : Filter) (rows offered : List Row)
    → Holds t f rows
    → (g : Filter) × Holds (insert_all t offered) g (rows ++ accepted_of t offered)
unfolding insert_all accepted_of
insert_all-Holds t f rows [] h = (f, rw append-nil h)
insert_all-Holds t f rows (row ∷ offered) h =
    let (g, h') = insert-Holds t f rows row h in
    let (g', h'') = insert_all-Holds (insert t row).0 g _ offered h' in
    (g', rw (← append_assoc rows _ _) h'')

-- What holds of all rows that are offered holds of those that are accepted.
pub All-accepted_of :
    (P : Row → Type 0) (t : Table) (rows : List Row) → All P rows → All P (accepted_of t rows)
unfolding accepted_of
All-accepted_of P t [] h = tt
All-accepted_of P t (row ∷ rows) (h, hs) =
    All-append P (if (insert t row).1.accepted then row ∷ [] else [])
      (accepted_of (insert t row).0 rows)
      (elim (Bool-cases (insert t row).1.accepted) [
        | inl yes_row ↦ rw yes_row (h, tt)
        | inr no_row ↦ rw no_row tt
      ])
      (All-accepted_of P (insert t row).0 rows hs)

length-insert :
    (t : Table) (row : Row)
    → (insert t row).1.accepted ≡ true
    → length row ≡ length t.schema.columns
unfolding insert
length-insert t row h = ground arith

insert-schema : (t : Table) (row : Row) → (insert t row).0.schema ≡ t.schema
unfolding insert
insert-schema t row = ground arith

-- An accepted row has a value for each column.
pub accepted_of-lengths :
    (t : Table) (rows : List Row)
    → All (λ row. length row ≡ length t.schema.columns) (accepted_of t rows)
unfolding accepted_of
accepted_of-lengths t [] = tt
accepted_of-lengths t (row ∷ rows) =
    All-append (λ r. length r ≡ length t.schema.columns)
      (if (insert t row).1.accepted then row ∷ [] else []) (accepted_of (insert t row).0 rows)
      (elim (Bool-cases (insert t row).1.accepted) [
        | inl yes_row ↦ rw yes_row (length-insert t row yes_row, tt)
        | inr no_row ↦ rw no_row tt
      ])
      (subst
        (λ (s : Schema). All (λ r. length r ≡ length s.columns) (accepted_of (insert t row).0 rows))
        (insert-schema t row) (accepted_of-lengths (insert t row).0 rows))

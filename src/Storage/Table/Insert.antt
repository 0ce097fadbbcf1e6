-- ===== src/Storage/Table/Insert.antt =====
-- One call of `Insert`, on every branch.
use uniqcol.Common.{
  ==_refl, Bool-cases, Bytes, Sum-cases, ap, arith, false, get_or, inl, inr, length, none, some,
  subst, true, ℕ, ◌%◌, ◌+◌, ◌==◌, ◌∙◌, ◌≡◌, ◌≢◌, ◌⊎◌,
}
use uniqcol.Storage.Buffer.{WriteBuffer, append}
use uniqcol.Bloom.Sizing.{new}
use uniqcol.Storage.Types.{Value, Row, ColumnType}
use uniqcol.Storage.Table.{
  PkError, Table, pk_bytes, insert, insert_key, InsertResult, accept, insert_sized, Reason, reject,
}
use uniqcol.Bloom.Filter.{u64_mod, Filter, add, contains}

-- The key of a row, as the filter sees it.
abbrev pub key_of : ℕ → ColumnType → Row → PkError ⊎ Bytes
key_of i t row = pk_bytes (get_or row i Value.nil) t

-- A row that is not accepted changes nothing but the counter of rejections, and has a reason.
pub insert_rejected :
    (t : Table) (row : Row)
    → (insert t row).1.accepted ≡ false
    → ((insert t row).0 ≡ record t { rejected = (t.rejected + 1) % u64_mod })
      × ((insert t row).1.reason ≢ none)
unfolding insert
insert_rejected t row h = ground arith

sized_row :
    (t : Table) (row : Row)
    → (length row == length t.schema.columns) ≡ true
    → insert t row ≡ insert_sized t row t.bloom
unfolding insert
sized_row t row same = rw same

keyed_row :
    (t : Table) (row : Row) (f : Filter) (key : Bytes)
    → key_of t.pk_idx t.pk_type row ≡ inr key
    → insert_sized t row (some f) ≡ insert_key t row f key
unfolding insert_sized
keyed_row t row f key is_key = rw (is_key, insert_sized)

keyless_row :
    (t : Table) (row : Row) (f : Filter) (e : PkError)
    → key_of t.pk_idx t.pk_type row ≡ inl e
    → insert_sized t row (some f) ≡ reject t (Reason.pk_type e)
unfolding insert_sized
keyless_row t row f e no_key = rw (no_key, insert_sized)

known_key :
    (t : Table) (row : Row) (f : Filter) (key : Bytes)
    → contains f key ≡ true
    → insert_key t row f key ≡ reject t Reason.duplicate
unfolding insert_key
known_key t row f key known = rw known

-- The two checks in front of `insert_key`.
insert-insert_key :
    (t : Table) (row : Row) (f : Filter) (key : Bytes)
    → t.bloom ≡ some f
    → (length row == length t.schema.columns) ≡ true
    → key_of t.pk_idx t.pk_type row ≡ inr key
    → insert t row ≡ insert_key t row f key
insert-insert_key t row f key has same is_key =
    sized_row t row same ∙ ap (insert_sized t row) has ∙ keyed_row t row f key is_key

insert_key_accepted :
    (t : Table) (row : Row) (f : Filter) (key : Bytes)
    → (insert_key t row f key).1.accepted ≡ true
    → (b : WriteBuffer) × (contains f key ≡ false)
      × (append t.buf row ≡ inr b)
      × ((insert_key t row f key).0 ≡ (accept t b (some (add f key))).0)
unfolding insert_key
insert_key_accepted t row f key h = elim (Bool-cases (contains f key)) [
  | inl known ↦ cc (rw (known, insert_key) at h)
  | inr new ↦ elim (Sum-cases (append t.buf row)) [
    | inl (e, refused) ↦ cc (rw (new, refused, insert_key) at h)
    | inr (b, stored) ↦ (b, new, stored, rw (new, stored))
  ]
]

insert_no_key :
    (t : Table) (row : Row) (f : Filter) (e : PkError)
    → t.bloom ≡ some f
    → (length row == length t.schema.columns) ≡ true
    → key_of t.pk_idx t.pk_type row ≡ inl e
    → insert t row ≡ reject t (Reason.pk_type e)
insert_no_key t row f e has same no_key =
    sized_row t row same ∙ ap (insert_sized t row) has ∙ keyless_row t row f e no_key

-- An accepted row has a key that the filter did not know; the row is in the buffer and its key in the
-- filter afterwards, and nothing else changed but the counter.
pub insert_accepted :
    (t : Table) (row : Row) (f : Filter)
    → t.bloom ≡ some f
    → (insert t row).1.accepted ≡ true
    → (key : Bytes) × (b : WriteBuffer) × (key_of t.pk_idx t.pk_type row ≡ inr key)
      × (contains f key ≡ false)
      × (append t.buf row ≡ inr b)
      × ((insert t row).0 ≡ (accept t b (some (add f key))).0)
unfolding insert
insert_accepted t row f has h = elim (Bool-cases (length row == length t.schema.columns)) [
  | inr other ↦ cc (rw (other, insert) at h)
  | inl same ↦ elim (Sum-cases (key_of t.pk_idx t.pk_type row)) [
    | inl (e, no_key) ↦ cc (insert_no_key t row f e has same no_key, h)
    | inr (key, is_key) ↦
        let step = insert-insert_key t row f key has same is_key in
        let (b, new, stored, after) =
          insert_key_accepted t row f key
            (subst (λ (p : Table × InsertResult). p.1.accepted ≡ true) step h) in
        (key, b, is_key, new, stored, ap (λ (p : Table × InsertResult). p.0) step ∙ after)
  ]
]

-- A row of the right length whose key the filter knows is rejected as a duplicate, whatever its other
-- cells are.
pub insert_known :
    (t : Table) (row : Row) (f : Filter) (key : Bytes)
    → t.bloom ≡ some f
    → length row ≡ length t.schema.columns
    → key_of t.pk_idx t.pk_type row ≡ inr key
    → contains f key ≡ true
    → (insert t row).1 ≡ record { accepted = false; reason = some Reason.duplicate }
unfolding insert insert_key
insert_known t row f key has same is_key known =
    ap (λ (p : Table × InsertResult). p.1)
      (insert-insert_key t row f key has (rw same (==_refl (length t.schema.columns))) is_key
        ∙ known_key t row f key known)

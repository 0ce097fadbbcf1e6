-- ===== src/Load/Counts.antt =====
-- The counters of a load.
use uniqcol.Common.{
  >>=-eq-ok, Bytes, List, Option, Option-cases, [], arith, get_elem?, inl, inr, length, map_err,
  map_err-eq-ok, none, ok, ok-injective, refl, some, subst, ℕ, ◌%◌, ◌+◌, ◌<◌, ◌∷◌, ◌≡◌, ◌≤◌,
}
use uniqcol.Storage.Table.Sessions.{insert-counts}
use uniqcol.Load.{
  Fields, Progress, load_record, load_records, run_load, emit_warning, max_load_warnings,
  load_schema, csv_fields, create, parse_record, next_row, bad_record,
}
use uniqcol.Bloom.Sizing.{Floats}
use uniqcol.Bloom.Filter.{u64_mod}
use uniqcol.Query.Parser.Where.{Literals}
use uniqcol.Storage.Table.{Table, TableOptions, CreateError, create_table, insert}
use uniqcol.Storage.Types.{Row, Schema, validate, pk_index}
use uniqcol.Storage.Table.{table_at, create_bloom}
use uniqcol.Bloom.Filter.{Filter}

-- The counters are uint64, each record read is counted once, and the first warnings are shown.
abbrev Tallied : Progress → Type 0
Tallied p =
    (p.rows_read < u64_mod)
    × (p.parse_errors < u64_mod)
    × (p.table.accepted < u64_mod)
    × (p.table.rejected < u64_mod)
    × (p.rows_read ≡ (p.table.accepted + p.table.rejected + p.parse_errors) % u64_mod)
    × (p.warnings ≤ max_load_warnings)

bad_record-Tallied : (p : Progress) → Tallied p → Tallied (bad_record (next_row p))
unfolding emit_warning
bad_record-Tallied p (r, e, a, j, sum, w) =
    (omega arith, omega arith, a, j, omega (arith, sum), ground arith)

insert-Tallied :
    (p : Progress) (row : Row)
    → Tallied p
    → Tallied (record (next_row p) { table = (insert p.table row).0 })
insert-Tallied p row (r, e, a, j, sum, w) =
    let (a', j', counted) = insert-counts p.table row a j in
    (omega arith, e, a', j', omega (arith, sum, counted), w)

load_record-Tallied :
    (lit : Literals) (fields : Fields) (rec : Option (List Bytes)) (p : Progress)
    → Tallied p
    → Tallied (load_record lit fields rec p)
unfolding load_record
load_record-Tallied lit fields none p t = bad_record-Tallied p t
load_record-Tallied lit fields (some rec) p t = elim (Option-cases (parse_record lit fields rec)) [
  | inl bad ↦ rw (load_record, bad) (bad_record-Tallied p t)
  | inr (row, good) ↦ rw (load_record, good) (insert-Tallied p row t)
]

load_records-Tallied :
    (lit : Literals) (fields : Fields) (recs : List (Option (List Bytes))) (p : Progress)
    → Tallied p
    → Tallied (load_records lit fields recs p)
unfolding load_records
load_records-Tallied lit fields [] p t = t
load_records-Tallied lit fields (rec ∷ recs) p t =
    load_records-Tallied lit fields recs (load_record lit fields rec p)
      (load_record-Tallied lit fields rec p t)

-- Each record is counted as read, whatever becomes of it.
rows_read-load_record :
    (lit : Literals) (fields : Fields) (rec : Option (List Bytes)) (p : Progress)
    → (load_record lit fields rec p).rows_read ≡ (p.rows_read + 1) % u64_mod
unfolding load_record
rows_read-load_record lit fields none p = refl
rows_read-load_record lit fields (some rec) p = elim (Option-cases (parse_record lit fields rec)) [
  | inl bad ↦ rw (load_record, bad) refl
  | inr (row, good) ↦ rw (load_record, good) refl
]

rows_read-load_records :
    (lit : Literals) (fields : Fields) (recs : List (Option (List Bytes))) (p : Progress)
    → p.rows_read < u64_mod
    → (load_records lit fields recs p).rows_read ≡ (p.rows_read + length recs) % u64_mod
unfolding load_records
rows_read-load_records lit fields [] p small = omega arith
rows_read-load_records lit fields (rec ∷ recs) p small =
    let one = rows_read-load_record lit fields rec p in
    let more =
      rows_read-load_records lit fields recs (load_record lit fields rec p) (omega (arith, one)) in
    omega (arith, one, more)

table_at-empty :
    (s : Schema) (f : Option Filter) (o : Option ℕ) (t : Table)
    → table_at s f o ≡ ok t
    → (t.accepted ≡ 0) × (t.rejected ≡ 0)
unfolding table_at
table_at-empty s f none t e = cc
table_at-empty s f (some i) t e = elim (Option-cases (get_elem? s.columns i)) [
  | inl beyond ↦ cc (rw (table_at, beyond) at e)
  | inr (c, at) ↦
      subst (λ (u : Table). (u.accepted ≡ 0) × (u.rejected ≡ 0))
        (ok-injective (rw (table_at, at) at e)) (refl, refl)
]

create_table-empty :
    (fl : Floats) (s : Schema) (opts : TableOptions fl.Float) (t : Table)
    → create_table fl s opts ≡ ok t
    → (t.accepted ≡ 0) × (t.rejected ≡ 0)
unfolding create_table
create_table-empty fl s opts t e =
    let (_, _, e₁) = >>=-eq-ok (map_err CreateError.schema (validate s)) _ e in
    let (f, _, e₂) = >>=-eq-ok (create_bloom fl opts opts.bloom_disabled) _ e₁ in
    table_at-empty s f (pk_index s) t e₂

-- When a load comes to the end of the records, every one of them was counted as read, and the
-- records read are, in number, those accepted, those rejected and the parse errors, all modulo 2 ^
-- 64. At most ten warnings were shown.
pub run_load-counts :
    (trim : Bytes → Bytes) (lit : Literals) (fl : Floats) (opts : TableOptions fl.Float)
    (spec pk : Bytes) (header : List Bytes) (recs : List (Option (List Bytes))) (p : Progress)
    → run_load trim lit fl opts spec pk header recs ≡ ok p
    → (p.rows_read ≡ length recs % u64_mod)
      × (p.rows_read ≡ (p.table.accepted + p.table.rejected + p.parse_errors) % u64_mod)
      × (p.warnings ≤ max_load_warnings)
unfolding run_load
run_load-counts trim lit fl opts spec pk header recs p e =
    let (schema, _, e₁) = >>=-eq-ok (load_schema trim spec pk) _ e in
    let (t, made, e₂) = >>=-eq-ok (map_err create (create_table fl schema opts)) _ e₁ in
    let (fields, _, e₃) = >>=-eq-ok (csv_fields trim header schema.columns) _ e₂ in
    let (a, r) = create_table-empty fl schema opts t (map_err-eq-ok _ _ made) in
    let start : Progress = record { table = t; rows_read = 0; parse_errors = 0; warnings = 0 } in
    let tallied = load_records-Tallied lit fields recs start (
      omega arith,
      omega arith,
      omega (arith, a),
      omega (arith, r),
      omega (arith, a, r),
      omega arith,
    ) in
    let (_, _, _, _, sum, shown) = tallied in
    subst
      (λ (q : Progress).
        (q.rows_read ≡ length recs % u64_mod)
        × (q.rows_read ≡ (q.table.accepted + q.table.rejected + q.parse_errors) % u64_mod)
        × (q.warnings ≤ max_load_warnings))
      (ok-injective e₃)
      (omega (arith, rows_read-load_records lit fields recs start (omega arith)), sum, shown)

-- ===== src/Command/Queries/Csv.antt =====
-- The CSV output of a query.
use uniqcol.Common.{
  All, All-imp, Bytes, List, [], ap, append_assoc, arith, length, length-append, length-map,
  length-replicate, lt→ltb, map, ok, refl, replicate, set, sym, ℕ, ◌++◌, ◌+◌, ◌<◌, ◌∙◌, ◌∷◌, ◌≡◌,
}
use uniqcol.Command.Queries.{Layout, csv_rows, fill_record, format_value, render_csv, text}
use uniqcol.Command.Format.{Texts}
use uniqcol.Query.{Answer}
use uniqcol.Storage.Types.{Value}

-- The lines of the rows, each written by itself.
abbrev pub csv_lines : Layout → List (List Value) → Bytes
csv_lines lay [] = []
csv_lines lay (row ∷ rows) = lay.csv_record (map (format_value lay.texts) row) ++ csv_lines lay rows

set-middle :
    (done old : List Bytes) (o v : Bytes)
    → set (done ++ o ∷ old) (length done) v ≡ (done ++ v ∷ []) ++ old
set-middle [] old o v = refl
set-middle (d ∷ done) old o v = ap (λ xs. d ∷ xs) (set-middle done old o v)

fill_record_step :
    (tx : Texts) (rec : List Bytes) (j : ℕ) (v : Value) (vs : List Value)
    → j < length rec
    → fill_record tx rec j (v ∷ vs) ≡ fill_record tx (set rec j (format_value tx v)) (j + 1) vs
unfolding fill_record
fill_record_step tx rec j v vs h = rw (fill_record, lt→ltb j (length rec) h) refl

-- A record of which `done` is written: whatever is behind is overwritten.
fill_record_lem :
    (tx : Texts) (done old : List Bytes) (vs : List Value)
    → length old ≡ length vs
    → fill_record tx (done ++ old) (length done) vs ≡ ok (done ++ map (format_value tx) vs)
unfolding fill_record
fill_record_lem tx done [] [] size = refl
fill_record_lem tx done [] (v ∷ vs) size = absurd (omega (arith, size))
fill_record_lem tx done (o ∷ old) [] size = absurd (omega (arith, size))
fill_record_lem tx done (o ∷ old) (v ∷ vs) size =
    let one = format_value tx v in
    let next : length done + 1 ≡ length (done ++ one ∷ []) =
      omega (arith, length-append done (one ∷ [])) in
    fill_record_step tx (done ++ o ∷ old) (length done) v vs
      (omega (arith, length-append done (o ∷ old)))
    ∙ ap (λ rec. fill_record tx rec (length done + 1) vs) (set-middle done old o one)
    ∙ ap (λ j. fill_record tx ((done ++ one ∷ []) ++ old) j vs) next
    ∙ fill_record_lem tx (done ++ one ∷ []) old vs (omega (arith, size))
    ∙ ap ok (append_assoc done (one ∷ []) (map (format_value tx) vs))

csv_rows_lem :
    (lay : Layout) (rec : List Bytes) (rows : List (List Value))
    → All (λ row. length row ≡ length rec) rows
    → csv_rows lay rec rows ≡ ok (csv_lines lay rows)
unfolding csv_rows
csv_rows_lem lay rec [] h = refl
csv_rows_lem lay rec (row ∷ rows) (size, h) =
    let filled = fill_record_lem lay.texts [] rec row (sym size) in
    let same = length-map (format_value lay.texts) row ∙ size in
    let rest =
      csv_rows_lem lay (map (format_value lay.texts) row) rows
        (All-imp _ _ rows (λ r k. k ∙ sym same) h) in
    rw (filled, rest) refl

-- The CSV output
pub render_csv_lem :
    (lay : Layout) (r : Answer)
    → All (λ row. length row ≡ length r.columns) r.rows
    → render_csv lay r ≡ ok (text (lay.csv_record r.columns ++ csv_lines lay r.rows) ∷ [])
unfolding render_csv
render_csv_lem lay r h =
    let size = length-replicate (length r.columns) [] in
    rw
      (csv_rows_lem lay (replicate (length r.columns) []) r.rows
        (All-imp _ _ r.rows (λ row k. k ∙ sym size) h))
      refl

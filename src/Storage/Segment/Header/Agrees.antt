-- ===== src/Storage/Segment/Header/Agrees.antt =====
-- `ReadSegmentHeader` and `parseSegment` on the same file.
use uniqcol.Common.{
  >>=-eq-ok, Bytes, List, [], ap, arith, bytes_eq, drop, fail_if-eq-ok, false, get_or, length,
  length-drop, ltb, ltb→le, lt→ltb, not, ok, ok-injective, or_fail, or_fail-eq-ok, refl, some,
  subst, suc, take, true, zero, ℕ, ◌&&◌, ◌++◌, ◌==◌, ◌∙◌, ◌∷◌, ◌≡◌, ◌≤◌,
}
use uniqcol.Storage.Segment.Header.Steps.{Rest, take_prefixed-read_prefixed, parse_flags-read_flags}
use uniqcol.Query.Group.Rounds.{taken}
use uniqcol.Storage.Segment.Parse.{
  take_prefixed, parse_flags, parse_column, parse_bloom, parse_body, parse_segment, parse_columns,
}
use uniqcol.Storage.Segment.Header.{
  read_prefixed, read_flags, skip_payload, read_header_column, read_header_columns,
  read_segment_header,
}
use uniqcol.Storage.Codec.{max_alloc}
use uniqcol.Binary.Varint.{uvarint_shorter}
use uniqcol.Binary.{uvarint, uint_le}
use uniqcol.Storage.Segment.{
  Part, Segment, ColumnBlock, wire_to_column_type, wire_to_encoding, magic,
}
use uniqcol.Storage.Types.{Column, ColumnType}

skip_payload-fits :
    (n : ℕ) (buf : Bytes)
    → n ≤ max_alloc
    → ltb (length buf) n ≡ false
    → skip_payload n buf ≡ ok (drop n buf)
unfolding skip_payload
skip_payload-fits n buf small within =
    let below : ltb n 0x8000_0000_0000_0000 ≡ true = lt→ltb n _ (omega arith) in
    rw (below, within) refl

read_header_column_lem :
    (buf name rest rest' : Bytes) (t : ColumnType) (n : ℕ)
    → read_prefixed Part.column_name_len Part.column_name buf ≡ ok (name, rest)
    → ltb (length rest) 2 ≡ false
    → wire_to_column_type (get_or rest 0 0) ≡ some t
    → uvarint (drop 2 rest) ≡ some (n, rest')
    → n ≤ max_alloc
    → ltb (length rest') n ≡ false
    → read_header_column buf ≡ ok (record { name = name; type = t }, drop n rest')
unfolding read_header_column
read_header_column_lem buf name rest rest' t n named tags typed found small within =
    rw (named, tags, typed, found, skip_payload-fits n rest' small within) refl

parse_column-read_header_column :
    (buf : Bytes) (p : Column × ColumnBlock × Bytes)
    → Rest buf
    → parse_column buf ≡ ok p
    → (read_header_column buf ≡ ok (p.0, p.2)) × Rest p.2
unfolding parse_column take_prefixed
parse_column-read_header_column buf p room e =
    let ((name, rest), named, e₁) =
      >>=-eq-ok (take_prefixed Part.column_name_len Part.column_name buf) _ e in
    let (read_it, room₁) =
      take_prefixed-read_prefixed Part.column_name_len Part.column_name buf (name, rest) room
        named in
    let (tags, e₂) = fail_if-eq-ok (ltb (length rest) 2) _ _ e₁ in
    let (t, typed, e₃) = >>=-eq-ok (or_fail (wire_to_column_type (get_or rest 0 0)) _) _ e₂ in
    let (encoding, _, e₄) = >>=-eq-ok (or_fail (wire_to_encoding (get_or rest 1 0)) _) _ e₃ in
    let ((payload, rest''), taken, e₅) =
      >>=-eq-ok (take_prefixed Part.payload_len Part.payload (drop 2 rest)) _ e₄ in
    let ((n, rest'), found, e₆) = >>=-eq-ok (or_fail (uvarint (drop 2 rest)) _) _ taken in
    let (within, e₇) = fail_if-eq-ok (ltb (length rest') n) _ _ e₆ in
    let at = or_fail-eq-ok (uvarint (drop 2 rest)) _ found in
    let less = uvarint_shorter (drop 2 rest) n rest' at in
    let fits = ltb→le _ _ within in
    let shorter = length-drop 2 rest in
    let same : drop n rest' ≡ rest'' = ap (λ (q : Bytes × Bytes). q.1) (ok-injective e₇) in
    subst
      (λ (q : Column × ColumnBlock × Bytes). (read_header_column buf ≡ ok (q.0, q.2)) × Rest q.2)
      (ok-injective e₅)
      (
        read_header_column_lem buf name rest rest' t n read_it tags (or_fail-eq-ok _ _ typed) at
              (omega arith) within
            ∙ ap (λ b. ok (record { name = name; type = t }, b)) same,
        omega (arith, length-drop n rest', ap length same),
      )

parse_columns-read_header_columns :
    (n : ℕ) (buf : Bytes) (columns : List Column) (blocks : List (Bytes × ColumnBlock))
    (p : List Column × List (Bytes × ColumnBlock) × Bytes)
    → Rest buf
    → parse_columns n buf columns blocks ≡ ok p
    → read_header_columns n buf columns ≡ ok p.0
unfolding parse_columns read_header_columns
parse_columns-read_header_columns zero buf columns blocks p room e =
    ap (λ (q : List Column × List (Bytes × ColumnBlock) × Bytes). ok q.0) (ok-injective e)
parse_columns-read_header_columns (suc n) buf columns blocks p room e =
    let ((column, block, rest), parsed, e₁) = >>=-eq-ok (parse_column buf) _ e in
    let (read_it, room') = parse_column-read_header_column buf (column, block, rest) room parsed in
    rw read_it (
      parse_columns-read_header_columns n rest (columns ++ column ∷ [])
        ((column.name, block) ∷ blocks) p room' e₁)

read_segment_header_lem :
    (buf name rest : Bytes) (columns : List Column)
    → ltb (length buf) 16 ≡ false
    → not (bytes_eq (take 4 buf) magic) ≡ false
    → (not (uint_le (take 2 (drop 4 buf)) == 1) && not (uint_le (take 2 (drop 4 buf)) == 2)) ≡ false
    → read_flags (uint_le (take 2 (drop 4 buf))) (drop 16 buf) ≡ ok (name, rest)
    → read_header_columns (uint_le (take 2 (drop 6 buf))) rest [] ≡ ok columns
    → read_segment_header buf
      ≡ ok (record { pk = name; columns = columns }, uint_le (take 8 (drop 8 buf)))
unfolding read_segment_header
read_segment_header_lem buf name rest columns long magical known names heads =
    rw (read_segment_header, long, magical, known, names, heads) refl

-- On a file that `parseSegment` accepts, `ReadSegmentHeader` gives the schema and the row count of
-- the segment that `parseSegment` gives. The file has at most 2 ^ 48 bytes.
pub read_segment_header-parse_segment :
    (buf : Bytes) (s : Segment)
    → length buf ≤ max_alloc
    → parse_segment buf ≡ ok s
    → read_segment_header buf ≡ ok (s.schema, s.row_count)
unfolding parse_segment parse_body read_segment_header
read_segment_header-parse_segment buf s room e =
    let (long, e₁) = fail_if-eq-ok (ltb (length buf) 16) _ _ e in
    let (magical, e₂) = fail_if-eq-ok (not (bytes_eq (take 4 buf) magic)) _ _ e₁ in
    let version = uint_le (take 2 (drop 4 buf)) in
    let (known, e₃) = fail_if-eq-ok (not (version == 1) && not (version == 2)) _ _ e₂ in
    let ((flags, name, rest), flagged, e₄) = >>=-eq-ok (parse_flags version (drop 16 buf)) _ e₃ in
    let (names, room₁) =
      parse_flags-read_flags version (drop 16 buf) (flags, name, rest)
        (omega (arith, length-drop 16 buf)) flagged in
    let ((columns, blocks, rest'), parsed, e₅) =
      >>=-eq-ok (parse_columns (uint_le (take 2 (drop 6 buf))) rest [] []) _ e₄ in
    let heads =
      parse_columns-read_header_columns (uint_le (take 2 (drop 6 buf))) rest [] []
        (columns, blocks, rest') room₁ parsed in
    let (f, _, e₆) = >>=-eq-ok (parse_bloom version flags rest') _ e₅ in
    subst (λ (t : Segment). read_segment_header buf ≡ ok (t.schema, t.row_count)) (ok-injective e₆)
      (read_segment_header_lem buf name rest columns long magical known names heads)

-- ===== src/Storage/Segment/Parse/Steps.antt =====
-- Each step of the parser on what the writer put there.
use uniqcol.Common.{
  >>=-eq-ok, Bytes, List, [], ap, append-nil, append_assoc, arith, drop-append_length, false,
  length, length-append, le→ltb, ltb, none, ok, ok-injective, or_fail, or_fail-eq-ok, refl, some,
  sym, take-append_length, ℕ, ◌++◌, ◌+◌, ◌∙◌, ◌∷◌, ◌≡◌, ◌≤◌,
}
use uniqcol.Storage.Segment.Write.{buffered, block_of, put_block, put_columns}
use uniqcol.Storage.Buffer.{WriteBuffer}
use uniqcol.Storage.Segment.Parse.{take_prefixed, parse_column, parse_columns}
use uniqcol.Storage.Segment.{
  Part, column_type_to_wire, wire_to_column_type, encoding_to_wire, wire_to_encoding, ColumnBlock,
}
use uniqcol.Binary.Varint.{uvarint-put_uvarint}
use uniqcol.Binary.{IsU64, put_uvarint}
use uniqcol.Storage.Segment.{Encoding, Part, Decoded}
use uniqcol.Storage.Types.{ColumnType, Column}

pub take_prefixed_lem :
    (p q : Part) (s rest : Bytes)
    → IsU64 (length s)
    → take_prefixed p q (put_uvarint (length s) ++ (s ++ rest)) ≡ ok (s, rest)
unfolding take_prefixed
take_prefixed_lem p q s rest h = rw (
  uvarint-put_uvarint (length s) (s ++ rest) h,
  le→ltb (length (s ++ rest)) (length s) (omega (arith, length-append s rest)),
  take-append_length s rest,
  drop-append_length s rest,
)

wire_round_trip :
    (t : ColumnType) (w : ℕ) → column_type_to_wire t ≡ some w → wire_to_column_type w ≡ some t
unfolding column_type_to_wire wire_to_column_type
wire_round_trip ColumnType.int64 w e = ground arith
wire_round_trip ColumnType.float64 w e = ground arith
wire_round_trip ColumnType.string w e = ground arith
wire_round_trip (ColumnType.unknown u) w e = cc

encoding_round_trip : (e : Encoding) → wire_to_encoding (encoding_to_wire e) ≡ some e
unfolding wire_to_encoding encoding_to_wire
encoding_round_trip Encoding.raw = refl
encoding_round_trip Encoding.rle = refl

two_more : (a b : ℕ) (xs : Bytes) → ltb (length (a ∷ b ∷ xs)) 2 ≡ false
two_more a b xs = ground arith

pub parse_column-put_block :
    (name : Bytes) (wire : ℕ) (t : ColumnType) (block : ColumnBlock) (rest : Bytes)
    → column_type_to_wire t ≡ some wire
    → IsU64 (length name)
    → IsU64 (length block.payload)
    → parse_column (put_block name wire block rest)
      ≡ ok (record { name = name; type = t }, block, rest)
unfolding parse_column put_block
parse_column-put_block name wire t block rest typed hn hp = rw (
  take_prefixed_lem Part.column_name_len Part.column_name name _ hn,
  two_more wire (encoding_to_wire block.encoding) _,
  wire_round_trip t wire typed,
  encoding_round_trip block.encoding,
  take_prefixed_lem Part.payload_len Part.payload block.payload rest hp,
)

put_block_shorter :
    (name : Bytes) (wire : ℕ) (block : ColumnBlock) (rest : Bytes)
    → length name + length block.payload + length rest ≤ length (put_block name wire block rest)
unfolding put_block
put_block_shorter name wire block rest =
    let payload : Bytes = put_uvarint (length block.payload) ++ (block.payload ++ rest) in
    omega (
      arith,
      length-append block.payload rest,
      length-append (put_uvarint (length block.payload)) (block.payload ++ rest),
      length-append name (wire ∷ encoding_to_wire block.encoding ∷ payload),
      length-append (put_uvarint (length name))
          (name ++ (wire ∷ encoding_to_wire block.encoding ∷ payload)),
    )

-- The block that the writer makes of a column.
unfoldable pub block_at : WriteBuffer → ℕ → ColumnType → ColumnBlock
block_at b i t = elim (buffered b i t) [
  | some vals ↦ block_of vals
  | none ↦ record { encoding = Encoding.raw; payload = [] }
]

-- The blocks of the columns, the last one first, in front of `blocks`.
unfoldable pub blocks_of :
    WriteBuffer → ℕ → List Column → List (Bytes × ColumnBlock) → List (Bytes × ColumnBlock)
blocks_of b i [] blocks = blocks
blocks_of b i (c ∷ cs) blocks = blocks_of b (i + 1) cs ((c.name, block_at b i c.type) ∷ blocks)

pub block_at-some :
    (b : WriteBuffer) (i : ℕ) (t : ColumnType) (vals : Decoded)
    → buffered b i t ≡ some vals
    → block_of vals ≡ block_at b i t
unfolding block_at
block_at-some b i t vals held = rw (held, block_at)

-- One round of the writer, inverted.
pub put_columns_cons :
    (b : WriteBuffer) (i : ℕ) (c : Column) (cs : List Column) (rest out : Bytes)
    → put_columns b i (c ∷ cs) rest ≡ ok out
    → (wire : ℕ) × (more : Bytes) × (vals : Decoded) × (buffered b i c.type ≡ some vals)
      × (column_type_to_wire c.type ≡ some wire)
      × (put_columns b (i + 1) cs rest ≡ ok more)
      × (out ≡ put_block c.name wire (block_at b i c.type) more)
unfolding put_columns
put_columns_cons b i c cs rest out e =
    let (vals, held, e₁) = >>=-eq-ok (or_fail (buffered b i c.type) _) _ e in
    let (wire, typed, e₂) = >>=-eq-ok (or_fail (column_type_to_wire c.type) _) _ e₁ in
    let (more, later, e₃) = >>=-eq-ok (put_columns b (i + 1) cs rest) _ e₂ in
    let same = block_at-some b i c.type vals (or_fail-eq-ok _ _ held) in
    (
      wire,
      more,
      vals,
      or_fail-eq-ok _ _ held,
      or_fail-eq-ok _ _ typed,
      later,
      sym (ok-injective e₃) ∙ ap (λ (k : ColumnBlock). put_block c.name wire k more) same,
    )

put_columns_nil :
    (b : WriteBuffer) (i : ℕ) (rest out : Bytes) → put_columns b i [] rest ≡ ok out → out ≡ rest
unfolding put_columns
put_columns_nil b i rest out e = sym (ok-injective e)

pub parse_columns-put_columns :
    (b : WriteBuffer) (cs : List Column) (i : ℕ) (rest out : Bytes) (columns : List Column)
    (blocks : List (Bytes × ColumnBlock))
    → put_columns b i cs rest ≡ ok out
    → IsU64 (length out)
    → parse_columns (length cs) out columns blocks
      ≡ ok (columns ++ cs, blocks_of b i cs blocks, rest)
unfolding parse_columns blocks_of
parse_columns-put_columns b [] i rest out columns blocks e h =
    rw (append-nil) (ap (λ (r : Bytes). ok (columns, blocks, r)) (put_columns_nil b i rest out e))
parse_columns-put_columns b (c ∷ cs) i rest out columns blocks e h =
    let (wire, more, _, _, typed, later, is_out) = put_columns_cons b i c cs rest out e in
    let size = put_block_shorter c.name wire (block_at b i c.type) more in
    let total : length out ≡ length (put_block c.name wire (block_at b i c.type) more) =
      ap length is_out in
    rw is_out (
      rw
        (parse_column-put_block c.name wire c.type (block_at b i c.type) more typed (omega arith)
          (omega arith))
        (parse_columns-put_columns b cs (i + 1) rest more (columns ++ c ∷ []) _ later (omega arith)
          ∙ rw (append_assoc columns (c ∷ []) cs)))

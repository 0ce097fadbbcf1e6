-- ===== src/Storage/Segment/Columns.antt =====
-- What `ReadColumn` gives for a column of a segment that `WriteSegment` wrote.
use uniqcol.Common.{
  All, All-of_map, Bytes, List, [], ap, arith, bytes_eq_refl, get_elem?, length, length-map, map,
  ok, refl, some, some-injective, subst, suc, zero, ℕ, ◌*◌, ◌+◌, ◌∙◌, ◌∷◌, ◌≡◌, ◌≢◌, ◌≤◌,
}
use uniqcol.Query.Group.{fresh}
use uniqcol.Storage.Codec.Rle.RoundTrip.{
  decode_rle_int64-encode_rle_int64, decode_rle_float64-encode_rle_float64,
  decode_rle_string-encode_rle_string,
}
use uniqcol.Storage.Codec.{max_alloc}
use uniqcol.Storage.Types.Schemas.{Fresh, DistinctNames, bytes_eq-of_ne}
use native.Mathlib.Nat.{add-zero}
use uniqcol.Storage.Segment.{Decoded, ColumnBlock, int64s, float64s, strings, lookup}
use uniqcol.Storage.Segment.Write.{encode_column, block_of, put_columns, buffered, choose_encoding}
use uniqcol.Storage.Segment.Read.{decode_column}
use uniqcol.Storage.Segment.Parse.Steps.{blocks_of, block_at, put_columns_cons}
use uniqcol.Storage.Buffer.{WriteBuffer}
use uniqcol.Storage.Buffer.Cells.{column_values, cell}
use uniqcol.Storage.Types.{Column, ColumnType, Row, Value}
use uniqcol.Binary.{IsU64}

lookup_other {ℓ} :
    {A : Type ℓ} (name n : Bytes) (a : A) (rest : List (Bytes × A))
    → n ≢ name
    → lookup name ((n, a) ∷ rest) ≡ lookup name rest
unfolding lookup
lookup_other name n a rest h = rw (bytes_eq-of_ne n name h)

pub lookup_self {ℓ} :
    {A : Type ℓ} (name : Bytes) (a : A) (rest : List (Bytes × A))
    → lookup name ((name, a) ∷ rest) ≡ some a
unfolding lookup
lookup_self name a rest = rw (bytes_eq_refl name)

pub lookup-Fresh :
    (b : WriteBuffer) (name : Bytes) (i : ℕ) (cs : List Column)
    (blocks : List (Bytes × ColumnBlock))
    → Fresh name cs
    → lookup name (blocks_of b i cs blocks) ≡ lookup name blocks
unfolding blocks_of
lookup-Fresh b name i [] blocks f = refl
lookup-Fresh b name i (c ∷ cs) blocks (ne, f) =
    lookup-Fresh b name (i + 1) cs _ f ∙ lookup_other name c.name _ blocks ne

pub lookup-blocks_of :
    (b : WriteBuffer) (i k : ℕ) (c : Column) (cs : List Column)
    (blocks : List (Bytes × ColumnBlock))
    → DistinctNames cs
    → get_elem? cs k ≡ some c
    → lookup c.name (blocks_of b i cs blocks) ≡ some (block_at b (i + k) c.type)
unfolding blocks_of
lookup-blocks_of b i k c [] blocks d at = cc
lookup-blocks_of b i zero c (x ∷ cs) blocks (fresh, d) at =
    subst
      (λ (y : Column).
        lookup y.name (blocks_of b (i + 1) cs ((x.name, block_at b i x.type) ∷ blocks))
        ≡ some (block_at b (i + 0) y.type))
      (some-injective _ _ at)
      (rw (add-zero i) (
        lookup-Fresh b x.name (i + 1) cs _ fresh ∙ lookup_self x.name (block_at b i x.type) blocks))
lookup-blocks_of b i (suc k) c (x ∷ cs) blocks (fresh, d) at =
    lookup-blocks_of b (i + 1) k c cs _ d at ∙ ap (λ n. some (block_at b n c.type)) (omega arith)

-- A cell that fits the machine: 64-bit numbers, and a string whose length is one.
abbrev pub Encodable : Value → Type 0
Encodable (Value.int64 x) = IsU64 x
Encodable (Value.float64 x) = IsU64 x
Encodable (Value.string s) = IsU64 (length s)
Encodable _ = Unit

-- The decoded column as cells.
unfoldable pub values_of : Decoded → List Value
values_of (int64s xs) = map Value.int64 xs
values_of (float64s xs) = map Value.float64 xs
values_of (strings xs) = map Value.string xs

pub cell-Encodable : (i : ℕ) (row : Row) → All Encodable row → Encodable (cell i row)
cell-Encodable i [] h = tt
cell-Encodable zero (v ∷ vs) (h, hs) = h
cell-Encodable (suc i) (v ∷ vs) (h, hs) = cell-Encodable i vs hs

-- What the writer encoded of each type, the decoder for the type decodes.
decode_int64s :
    (xs : List ℕ) (name : Bytes) (rows : ℕ)
    → rows ≡ length xs
    → 16 * rows ≤ max_alloc
    → All IsU64 xs
    → decode_column ColumnType.int64
        (block_of (int64s xs)).encoding
        (block_of (int64s xs)).payload
        rows
        name
      ≡ ok (int64s xs)
unfolding decode_column block_of choose_encoding encode_column
decode_int64s xs name rows size room h =
    rw (size, decode_rle_int64-encode_rle_int64 xs (omega arith) h)

decode_float64s :
    (xs : List ℕ) (name : Bytes) (rows : ℕ)
    → rows ≡ length xs
    → 16 * rows ≤ max_alloc
    → All IsU64 xs
    → decode_column ColumnType.float64
        (block_of (float64s xs)).encoding
        (block_of (float64s xs)).payload
        rows
        name
      ≡ ok (float64s xs)
unfolding decode_column block_of choose_encoding encode_column
decode_float64s xs name rows size room h =
    rw (size, decode_rle_float64-encode_rle_float64 xs (omega arith) h)

decode_strings :
    (xs : List Bytes) (name : Bytes) (rows : ℕ)
    → rows ≡ length xs
    → 16 * rows ≤ max_alloc
    → All (λ s. IsU64 (length s)) xs
    → decode_column ColumnType.string
        (block_of (strings xs)).encoding
        (block_of (strings xs)).payload
        rows
        name
      ≡ ok (strings xs)
unfolding decode_column block_of choose_encoding encode_column
decode_strings xs name rows size room h =
    rw (size, decode_rle_string-encode_rle_string xs (omega arith) h)

-- The column at `i` in the buffer, if its type is a known one: it is decoded again, to its cells.
pub decode_column-buffered :
    (b : WriteBuffer) (i : ℕ) (t : ColumnType) (name : Bytes) (rows : ℕ) (vals : Decoded)
    → buffered b i t ≡ some vals
    → rows ≡ length (column_values b i t)
    → 16 * rows ≤ max_alloc
    → All Encodable (column_values b i t)
    → (decode_column t (block_of vals).encoding (block_of vals).payload rows name ≡ ok vals)
      × (values_of vals ≡ column_values b i t)
unfolding buffered column_values values_of
decode_column-buffered b i ColumnType.int64 name rows vals held size room fit =
    let xs = b.int64_cols i in
    let same_size = size ∙ length-map Value.int64 xs in
    subst
      (λ (d : Decoded).
        (decode_column ColumnType.int64 (block_of d).encoding (block_of d).payload rows name ≡ ok d)
        × (values_of d ≡ map Value.int64 xs))
      (some-injective _ _ held)
      (decode_int64s xs name rows same_size room (All-of_map Encodable Value.int64 xs fit), refl)
decode_column-buffered b i ColumnType.float64 name rows vals held size room fit =
    let xs = b.float64_cols i in
    let same_size = size ∙ length-map Value.float64 xs in
    subst
      (λ (d : Decoded).
        (decode_column ColumnType.float64 (block_of d).encoding (block_of d).payload rows name
          ≡ ok d)
        × (values_of d ≡ map Value.float64 xs))
      (some-injective _ _ held)
      (
        decode_float64s xs name rows same_size room (All-of_map Encodable Value.float64 xs fit),
        refl,
      )
decode_column-buffered b i ColumnType.string name rows vals held size room fit =
    let xs = b.string_cols i in
    let same_size = size ∙ length-map Value.string xs in
    subst
      (λ (d : Decoded).
        (decode_column ColumnType.string (block_of d).encoding (block_of d).payload rows name
          ≡ ok d)
        × (values_of d ≡ map Value.string xs))
      (some-injective _ _ held)
      (decode_strings xs name rows same_size room (All-of_map Encodable Value.string xs fit), refl)
decode_column-buffered b i (ColumnType.unknown u) name rows vals held size room fit = cc

-- The writer accepts known types only.
pub put_columns-buffered :
    (b : WriteBuffer) (i k : ℕ) (c : Column) (cs : List Column) (rest out : Bytes)
    → put_columns b i cs rest ≡ ok out
    → get_elem? cs k ≡ some c
    → (vals : Decoded) × (buffered b (i + k) c.type ≡ some vals)
put_columns-buffered b i k c [] rest out e at = cc
put_columns-buffered b i zero c (x ∷ cs) rest out e at =
    let (_, _, vals, held, _, _, _) = put_columns_cons b i x cs rest out e in
    (
      vals,
      subst (λ (y : Column). buffered b (i + 0) y.type ≡ some vals) (some-injective _ _ at)
          (rw (add-zero i) held),
    )
put_columns-buffered b i (suc k) c (x ∷ cs) rest out e at =
    let (_, more, _, _, _, later, _) = put_columns_cons b i x cs rest out e in
    let (vals, held) = put_columns-buffered b (i + 1) k c cs rest more later at in
    (vals, subst (λ n. buffered b n c.type ≡ some vals) (omega arith) held)

-- ===== src/Command/Inspect.antt =====
-- cmd/uniqcol/inspect.go, main.go and version.go. The labels of the lines are constructors.
use uniqcol.Common.{
  Bool, Bytes, List, Option, Result, [], bytes_eq, err, false, if◌then◌else◌, inl, inr, length, map,
  map_err, none, not, ok, some, true, ℕ, ◌&&◌, ◌==◌, ◌>>=◌, ◌||◌, ◌∷◌, ◌⊎◌,
}
use uniqcol.Bloom.Filter.{Filter}
use uniqcol.Bloom.Rate.{Powers, estimated_fpr}
use uniqcol.Bloom.Sizing.{Floats}
use uniqcol.Command.Format.{Texts, comma_sep_uint64, human_bytes}
use uniqcol.Load.{name_float64, name_int64, name_string}
use uniqcol.Storage.Segment.{Encoding, Segment}
use uniqcol.Storage.Segment.Parse.{parse_segment}
use uniqcol.Storage.Segment.Read.{ColumnInfo, column_info}
use uniqcol.Storage.Types.{Column, ColumnType}

-- `ColumnType.String`; of another type the number is printed.
unfoldable pub type_string : ColumnType → Bytes ⊎ ℕ
type_string ColumnType.int64 = inl name_int64
type_string ColumnType.float64 = inl name_float64
type_string ColumnType.string = inl name_string
type_string (ColumnType.unknown u) = inr u

pub data VersionLabel : Type 0 where
  legacy second : VersionLabel
  unsupported : ℕ → VersionLabel

unfoldable pub format_version_label : ℕ → VersionLabel
format_version_label v =
    if v == 1 then legacy else if v == 2 then VersionLabel.second else unsupported v

-- One line of the column tables.
pub record ColumnLine : Type 0 where
  pub name : Bytes
  pub type : Bytes ⊎ ℕ
  pub is_pk : Bool

pub record PayloadLine : Type 0 where
  pub name : Bytes
  pub type : Bytes ⊎ ℕ
  pub encoding : Bytes
  pub size : Bytes

-- The lines about the filter.
pub data BloomLines {ℓ} (Float : Type ℓ) : Type ℓ where
  absent disabled : BloomLines Float
  enabled : (m : Bytes) (k : ℕ) (n_added : Bytes) (fpr : Float) → BloomLines Float

pub record Inspected {ℓ} (Float : Type ℓ) : Type ℓ where
  pub path : Bytes
  pub version : VersionLabel
  pub size : Bytes
  pub columns : List ColumnLine
  pub rows : Bytes
  pub bloom : BloomLines Float
  pub payloads : List PayloadLine

pub data InspectFailure : Type 0 where
  usage unreadable : InspectFailure
  bad_file : uniqcol.Storage.Segment.Error → InspectFailure

-- The key's name is empty in a file of version 1.
unfoldable pub column_line : Bytes → Column → ColumnLine
unfolding type_string
column_line pk c = record {
  name = c.name;
  type = type_string c.type;
  is_pk = not (length pk == 0) && bytes_eq c.name pk;
}

unfoldable pub encoding_label : Encoding → Bytes
encoding_label Encoding.raw = b'r' ∷ b'a' ∷ b'w' ∷ []
encoding_label Encoding.rle = b'R' ∷ b'L' ∷ b'E' ∷ []

unfoldable pub payload_line : Texts → ColumnInfo → PayloadLine
unfolding type_string encoding_label human_bytes
payload_line tx ci = record {
  name = ci.name;
  type = type_string ci.type;
  encoding = encoding_label ci.encoding;
  size = human_bytes tx ci.payload_len;
}

unfoldable pub bloom_lines :
    (fl : Floats) → Powers fl.Float → Texts → ℕ → Option Filter → Result ⊥ (BloomLines fl.Float)
unfolding comma_sep_uint64 estimated_fpr
bloom_lines fl pw tx version filter = elim (version == 1) [
  | true ↦ ok absent
  | false ↦ elim filter [
    | none ↦ ok disabled
    | some f ↦ (do
      m ← comma_sep_uint64 tx f.m
      n_added ← comma_sep_uint64 tx f.n_added
      ok (enabled m f.k n_added (estimated_fpr fl pw f)))
  ]
]

unfoldable pub inspect_segment :
    (fl : Floats) → Powers fl.Float → Texts → Bytes → ℕ → Segment → Result ⊥ (Inspected fl.Float)
unfolding format_version_label column_line payload_line bloom_lines column_info
inspect_segment fl pw tx path size seg = do
  rows ← comma_sep_uint64 tx seg.row_count
  bloom ← bloom_lines fl pw tx seg.version seg.bloom_filter
  ok (record {
    path = path;
    version = format_version_label seg.version;
    size = human_bytes tx size;
    columns = map (column_line seg.pk_name) seg.schema.columns;
    rows = rows;
    bloom = bloom;
    payloads = map (payload_line tx) (column_info seg);
  })

-- `none` is the help text. `files` is what `os.ReadFile` gives for a path, `stat_size` what `os.Stat`
-- does.
unfoldable pub run_inspect :
    (fl : Floats)
    → Powers fl.Float
    → Texts
    → (Bytes → Option Bytes)
    → (Bytes → Option ℕ)
    → List Bytes
    → Result InspectFailure (Option (Inspected fl.Float))
unfolding inspect_segment
run_inspect fl pw tx files stat_size (path ∷ []) =
    let help =
      bytes_eq path (b'-' ∷ b'h' ∷ [])
      || bytes_eq path (b'-' ∷ b'-' ∷ b'h' ∷ b'e' ∷ b'l' ∷ b'p' ∷ []) in
    elim help [
      | true ↦ ok none
      | false ↦ elim (files path) [
        | none ↦ err unreadable
        | some contents ↦ (do
          seg ← map_err bad_file (parse_segment contents)
          page ←
              map_err (λ (no : ⊥). absurd no)
                (inspect_segment fl pw tx path (elim (stat_size path) [ none ↦ 0 | some n ↦ n ])
                  seg)
          ok (some page))
      ]
    ]
run_inspect fl pw tx files stat_size args = err usage

-- The switch of main.go, with the arguments behind the subcommand.
pub data Subcommand : Type 0 where
  load inspect query : List Bytes → Subcommand
  version help no_subcommand : Subcommand
  unknown : Bytes → Subcommand

unfoldable pub subcommand : List Bytes → Subcommand
unfolding bytes_eq
subcommand [] = no_subcommand
subcommand (cmd ∷ rest) =
    if bytes_eq cmd (b'l' ∷ b'o' ∷ b'a' ∷ b'd' ∷ [])
    then load rest
    else if bytes_eq cmd (b'i' ∷ b'n' ∷ b's' ∷ b'p' ∷ b'e' ∷ b'c' ∷ b't' ∷ [])
    then inspect rest
    else if bytes_eq cmd (b'q' ∷ b'u' ∷ b'e' ∷ b'r' ∷ b'y' ∷ [])
    then query rest
    else if bytes_eq cmd (b'v' ∷ b'e' ∷ b'r' ∷ b's' ∷ b'i' ∷ b'o' ∷ b'n' ∷ [])
    then version
    else if bytes_eq cmd (b'-' ∷ b'h' ∷ [])
        || (bytes_eq cmd (b'-' ∷ b'-' ∷ b'h' ∷ b'e' ∷ b'l' ∷ b'p' ∷ [])
            || bytes_eq cmd (b'h' ∷ b'e' ∷ b'l' ∷ b'p' ∷ []))
    then help
    else Subcommand.unknown cmd

-- The exit code, by what the three commands return for their arguments.
unfoldable pub dispatch_code :
    (List Bytes → Option ℕ)
    → (List Bytes → Option ℕ)
    → (List Bytes → Option ℕ)
    → List Bytes
    → Option ℕ
unfolding subcommand
dispatch_code loads inspects queries args = elim (subcommand args) [
  | load rest ↦ loads rest
  | inspect rest ↦ inspects rest
  | query rest ↦ queries rest
  | version ↦ some 0
  | help ↦ some 0
  | no_subcommand ↦ some 2
  | Subcommand.unknown cmd ↦ some 2
]

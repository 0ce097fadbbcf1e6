-- ===== src/Storage/Segment/RoundTrip.antt =====
-- What `WriteSegment` wrote, `parseSegment` reads.
use uniqcol.Common.{
  >>=-eq-ok, Bytes, [], ap, arith, fail_if-eq-ok, length, ltb, ltb→le, ok, ok-injective, sym, ◌∙◌,
  ◌≡◌,
}
use uniqcol.Storage.Segment.{Segment}
use uniqcol.Storage.Segment.Write.{
  WriteSegmentOpts, flags_of, put_flags, put_header, put_bloom, put_columns, write_segment,
}
use uniqcol.Storage.Segment.Parse.{parse_segment, parse_body}
use uniqcol.Storage.Segment.Parse.Frame.{
  FilterFits, parse_flags-put_flags, parse_bloom-put_bloom, parse_segment-put_header,
  put_flags_shorter, put_header_shorter,
}
use uniqcol.Storage.Segment.Parse.Steps.{blocks_of, parse_columns-put_columns}
use uniqcol.Storage.Buffer.{WriteBuffer, len}
use uniqcol.Storage.Types.{Schema}
use uniqcol.Binary.{IsU64}

-- The segment that is read back.
unfoldable pub written : Schema → WriteBuffer → WriteSegmentOpts → Segment
written schema b opts = record {
  version = 2;
  schema = record { pk = opts.pk_name; columns = schema.columns };
  row_count = len b;
  blocks = blocks_of b 0 schema.columns [];
  decoded = [];
  flags = flags_of opts;
  pk_name = opts.pk_name;
  bloom_filter = opts.bloom;
}

parse_body_lem :
    (schema : Schema) (b : WriteBuffer) (opts : WriteSegmentOpts) (columns : Bytes)
    → put_columns b 0 schema.columns (put_bloom opts.bloom) ≡ ok columns
    → IsU64 (length columns)
    → IsU64 (length opts.pk_name)
    → FilterFits opts.bloom
    → parse_body 2 (length schema.columns) (len b) (put_flags (flags_of opts) opts.pk_name columns)
      ≡ ok (written schema b opts)
unfolding parse_body written
parse_body_lem schema b opts columns e h hp v = rw (
  parse_flags-put_flags opts columns hp,
  parse_columns-put_columns b schema.columns 0 (put_bloom opts.bloom) columns [] [] e h,
  parse_bloom-put_bloom opts v,
)

-- What `WriteSegment` wrote without an error, `parseSegment` reads: the columns in their order,
-- their blocks, the row count, the flags, the name of the key and the filter. The filter has to be
-- well formed or absent, the length of the file and the row count below 2 ^ 64.
pub parse_segment-write_segment :
    (schema : Schema) (b : WriteBuffer) (opts : WriteSegmentOpts) (out : Bytes)
    → write_segment schema b opts ≡ ok out
    → IsU64 (length out)
    → IsU64 (len b)
    → FilterFits opts.bloom
    → parse_segment out ≡ ok (written schema b opts)
unfolding write_segment
parse_segment-write_segment schema b opts out e ho hr v =
    let (few, e₁) = fail_if-eq-ok (ltb 0xffff (length schema.columns)) _ _ e in
    let (columns, put, e₂) =
      >>=-eq-ok (put_columns b 0 schema.columns (put_bloom opts.bloom)) _ e₁ in
    let tail : Bytes = put_flags (flags_of opts) opts.pk_name columns in
    let is_out : out ≡ put_header (length schema.columns) (len b) tail = sym (ok-injective e₂) in
    let size : length out ≡ length (put_header (length schema.columns) (len b) tail) =
      ap length is_out in
    let outer = put_header_shorter (length schema.columns) (len b) tail in
    let inner = put_flags_shorter opts columns in
    let count = ltb→le 0xffff (length schema.columns) few in
    ap parse_segment is_out
    ∙ parse_segment-put_header (length schema.columns) (len b) tail (omega arith) hr
    ∙ parse_body_lem schema b opts columns put (omega arith) (omega arith) v

-- ===== src/Storage/Segment/Parse/Frame.antt =====
-- The parser on what the writer puts around the columns: the header, the flags and the filter.
use uniqcol.Common.{
  Bool-cases, Bytes, Option, [], ap, arith, bytes_eq, drop, false, if◌then◌else◌, inl, inr, length,
  length-append, ltb, none, ok, refl, some, take, true, ℕ, ◌++◌, ◌+◌, ◌<◌, ◌∷◌, ◌≡◌, ◌≤◌,
}
use uniqcol.Storage.Segment.{magic, bloom_magic, has_flag}
use uniqcol.Storage.Segment.Write.{WriteSegmentOpts, flags_of, put_flags, put_bloom, put_header}
use uniqcol.Storage.Segment.Parse.{
  parse_pk_name, parse_flags, parse_bloom, parse_body, parse_segment,
}
use uniqcol.Storage.Segment.Parse.Steps.{take_prefixed_lem}
use uniqcol.Storage.Segment.{Part}
use uniqcol.Bloom.Filter.Membership.{IsValid}
use uniqcol.Bloom.Wire.RoundTrip.{unmarshal_binary-marshal_binary}
use uniqcol.Bloom.Wire.{marshal_binary}
use uniqcol.Bloom.Filter.{Filter}
use uniqcol.Binary.Varint.{uvarint-put_uvarint}
use uniqcol.Binary.Fixed.{uint_le-put_uint_le}
use uniqcol.Binary.{IsU64, put_uvarint, put_uint_le, uint_le}

-- The filter that goes into a segment, if there is one, is well formed.
unfoldable pub FilterFits : Option Filter → Type 0
FilterFits none = Unit
FilterFits (some f) = IsValid f

one-IsU64 : IsU64 1
one-IsU64 = omega arith

flags_len_short : (flags : ℕ) (rest : Bytes) → ltb (length (flags ∷ rest)) 1 ≡ false
flags_len_short flags rest = ground arith

parse_pk_name-put :
    (flags : ℕ) (pk_name rest : Bytes)
    → IsU64 (length pk_name)
    → (has_flag flags 1 ≡ false → pk_name ≡ [])
    → parse_pk_name flags
        (if has_flag flags 1 then put_uvarint (length pk_name) ++ (pk_name ++ rest) else rest)
      ≡ ok (pk_name, rest)
unfolding parse_pk_name
parse_pk_name-put flags pk_name rest h absent = elim (Bool-cases (has_flag flags 1)) [
  | inl e ↦ rw e (take_prefixed_lem Part.pk_name_len Part.pk_name pk_name rest h)
  | inr e ↦ rw (e, absent e) refl
]

no_name_flag :
    (pk_name : Bytes) (f : Option Filter)
    → has_flag (flags_of (record { pk_name = pk_name; bloom = f })) 1 ≡ false
    → pk_name ≡ []
unfolding flags_of
no_name_flag [] f e = refl
no_name_flag (x ∷ xs) none e = ground arith
no_name_flag (x ∷ xs) (some f) e = ground arith

pub parse_flags-put_flags :
    (opts : WriteSegmentOpts) (rest : Bytes)
    → IsU64 (length opts.pk_name)
    → parse_flags 2 (put_flags (flags_of opts) opts.pk_name rest)
      ≡ ok (flags_of opts, opts.pk_name, rest)
unfolding parse_flags put_flags
parse_flags-put_flags opts rest h =
    let tail : Bytes =
      if has_flag (flags_of opts) 1
      then put_uvarint (length opts.pk_name) ++ (opts.pk_name ++ rest)
      else rest in
    rw (
      uvarint-put_uvarint 1 (flags_of opts ∷ tail) one-IsU64,
      flags_len_short (flags_of opts) tail,
      parse_pk_name-put (flags_of opts) opts.pk_name rest h (no_name_flag opts.pk_name opts.bloom),
    )

put_flags_at :
    (flags : ℕ) (pk_name rest : Bytes)
    → (has_flag flags 1 ≡ false → pk_name ≡ [])
    → length pk_name + length rest ≤ length (put_flags flags pk_name rest)
unfolding put_flags
put_flags_at flags pk_name rest absent = elim (Bool-cases (has_flag flags 1)) [
  | inl e ↦ rw e (
      omega (
        arith,
        length-append (put_uvarint 1) (flags ∷ (put_uvarint (length pk_name) ++ (pk_name ++ rest))),
        length-append (put_uvarint (length pk_name)) (pk_name ++ rest),
        length-append pk_name rest,
      ))
  | inr e ↦ rw e (omega (arith, length-append (put_uvarint 1) (flags ∷ rest), ap length (absent e)))
]

pub put_flags_shorter :
    (opts : WriteSegmentOpts) (rest : Bytes)
    → length opts.pk_name + length rest ≤ length (put_flags (flags_of opts) opts.pk_name rest)
put_flags_shorter opts rest =
    put_flags_at (flags_of opts) opts.pk_name rest (no_name_flag opts.pk_name opts.bloom)

pub put_header_shorter :
    (columns rows : ℕ) (rest : Bytes) → length rest ≤ length (put_header columns rows rest)
unfolding put_header put_uint_le
put_header_shorter columns rows rest = omega arith

put_bloom_fields :
    (f : Filter)
    → (ltb (length (put_bloom (some f))) 6 ≡ false)
      × (bytes_eq (take 4 (put_bloom (some f))) bloom_magic ≡ true)
      × (uint_le (take 2 (drop 4 (put_bloom (some f)))) ≡ 1)
      × (drop 6 (put_bloom (some f)) ≡ marshal_binary f)
unfolding put_bloom put_uint_le bytes_eq
put_bloom_fields f = (ground arith, refl, uint_le-put_uint_le 2 1 (omega arith), refl)

filter_flag :
    (pk_name : Bytes) (f : Option Filter)
    → has_flag (flags_of (record { pk_name = pk_name; bloom = f })) 2
      ≡ elim f [ none ↦ false | some g ↦ true ]
unfolding flags_of
filter_flag [] none = refl
filter_flag [] (some f) = refl
filter_flag (x ∷ xs) none = ground arith
filter_flag (x ∷ xs) (some f) = ground arith

parse_bloom-put_bloom_at :
    (flags : ℕ) (f : Option Filter)
    → has_flag flags 2 ≡ elim f [ none ↦ false | some g ↦ true ]
    → FilterFits f
    → parse_bloom 2 flags (put_bloom f) ≡ ok f
unfolding parse_bloom FilterFits
parse_bloom-put_bloom_at flags none flag v = rw flag refl
parse_bloom-put_bloom_at flags (some f) flag v =
    let (long, is_magic, is_one, tail) = put_bloom_fields f in
    rw (flag, long, is_magic, is_one, tail, unmarshal_binary-marshal_binary f v)

pub parse_bloom-put_bloom :
    (opts : WriteSegmentOpts)
    → FilterFits opts.bloom
    → parse_bloom 2 (flags_of opts) (put_bloom opts.bloom) ≡ ok opts.bloom
parse_bloom-put_bloom opts v =
    parse_bloom-put_bloom_at (flags_of opts) opts.bloom (filter_flag opts.pk_name opts.bloom) v

header_fields :
    (columns rows : ℕ) (rest : Bytes)
    → columns < 65536
    → IsU64 rows
    → (ltb (length (put_header columns rows rest)) 16 ≡ false)
      × (bytes_eq (take 4 (put_header columns rows rest)) magic ≡ true)
      × (uint_le (take 2 (drop 4 (put_header columns rows rest))) ≡ 2)
      × (uint_le (take 2 (drop 6 (put_header columns rows rest))) ≡ columns)
      × (uint_le (take 8 (drop 8 (put_header columns rows rest))) ≡ rows)
      × (drop 16 (put_header columns rows rest) ≡ rest)
unfolding put_header put_uint_le bytes_eq
header_fields columns rows rest hc hr = (
  ground arith,
  refl,
  uint_le-put_uint_le 2 2 (omega arith),
  uint_le-put_uint_le 2 columns (omega arith),
  uint_le-put_uint_le 8 rows (omega arith),
  refl,
)

pub parse_segment-put_header :
    (columns rows : ℕ) (rest : Bytes)
    → columns < 65536
    → IsU64 rows
    → parse_segment (put_header columns rows rest) ≡ parse_body 2 columns rows rest
unfolding parse_segment
parse_segment-put_header columns rows rest hc hr =
    let (long, is_magic, version, count, size, tail) = header_fields columns rows rest hc hr in
    rw (long, is_magic, version, count, size, tail)

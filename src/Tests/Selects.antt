-- ===== src/Tests/Selects.antt =====
-- Queries over the file of a session in which one row of three was refused.
use uniqcol.Common.{
  All, List, [], ap, arith, false, length, ok, refl, some, true, ◌*◌, ◌∷◌, ◌≡◌, ◌≤◌,
}
use uniqcol.Binary.{put_uvarint, uvarint, uint_le}
use uniqcol.Storage.Segment.Columns.{Encodable}
use uniqcol.Query.Evaluate.{eval_comparison}
use uniqcol.Storage.Types.{column_index, ColumnType}
use uniqcol.Storage.Table.{pk_bytes}
use uniqcol.Bloom.Filter.{contains, add}
use uniqcol.Storage.Buffer.{append, new_write_buffer, len}
use uniqcol.Storage.Segment.Parse.Steps.{blocks_of, block_at}
use uniqcol.Storage.Segment.Parse.{parse_segment}
use uniqcol.Storage.Segment.Write.{buffered, block_of}
use uniqcol.Storage.Codec.Rle.{decode_rle_int64, encode_rle_int64}
use uniqcol.Storage.Codec.{max_alloc}
use uniqcol.Query.Execute.Projected.{length-matching, matching}
use uniqcol.Query.Execute.Star.{projected}
use uniqcol.Query.Execute.Filtered.{meets_filter}
use uniqcol.Query.Execute.Grouped.{count_answer}
use uniqcol.Query.{Comparison, FilterOp, Query, ProjectionKind, AggregateKind, comparison}
use uniqcol.Query.Execute.{execute, select_rows}
use uniqcol.Query.Execute.Sessions.{
  file_segment, select_star-flush, select_columns-flush, count_star-flush,
}
use uniqcol.Tests.Tables.{
  id_name, text, two_columns, row_one, row_two, row_again, new_table, options, created,
  two_accepted,
}
use uniqcol.Tests.Floating.{fixed_point, fixed_point-IsIeee}
use uniqcol.Tests.Reloads.{filled, stored, filled_flushed, stored-IsU64}
use uniqcol.Storage.Segment.{int64s}
use uniqcol.Tests.Answers.{by_bits}
use uniqcol.Storage.Table.History.{insert_all, accepted_of}
use uniqcol.Storage.Segment.{Segment}
use uniqcol.Storage.Types.{Value, Row}

abbrev offered : List Row
offered = row_one ∷ row_two ∷ row_again ∷ []

-- id > 1
abbrev second : Comparison
second = record { column = id_name; op = FilterOp.gt; value = Value.int64 1; pos = 0 }

abbrev everything : Query
everything = record {
  projection = ProjectionKind.star;
  columns = [];
  sum_column = [];
  group_by = [];
  group_agg = AggregateKind.count_star;
  filter = some (comparison second);
}

-- The segment with its first column decoded.
abbrev id_read : Segment
id_read = record (file_segment filled) { decoded = (id_name, int64s (1 ∷ 2 ∷ [])) ∷ [] }

second_selected :
    select_rows by_bits (file_segment filled) (some (comparison second))
    ≡ ok (id_read, some (false ∷ true ∷ []))
unfolding select_rows eval_comparison column_index file_segment insert_all pk_bytes contains append
    new_write_buffer add blocks_of block_at buffered block_of decode_rle_int64 len encode_rle_int64
    put_uvarint uvarint uint_le
second_selected = refl

accepted-room : 16 * length (accepted_of new_table offered) ≤ max_alloc
accepted-room = rw two_accepted (omega arith)

selected-room :
    24
      * length (
          matching
            (meets_filter by_bits two_columns everything.filter)
            (accepted_of new_table offered))
    ≤ max_alloc
selected-room =
    let fewer =
      length-matching (meets_filter by_bits two_columns everything.filter)
        (accepted_of new_table offered) in
    omega (arith, fewer, ap length two_accepted)

offered-Encodable : All (All Encodable) offered
offered-Encodable = (
  (omega arith, (omega arith, tt)),
  ((omega arith, (omega arith, tt)), ((omega arith, (omega arith, tt)), tt)),
)

select_star-flush_example :
    (v : Segment) × (parse_segment stored ≡ ok (file_segment filled))
    × (execute by_bits (file_segment filled) everything
        ≡ ok (
          v,
          record {
            columns = id_name ∷ text.name ∷ [];
            rows =
                matching
                  (meets_filter by_bits two_columns everything.filter)
                  (accepted_of new_table offered);
            is_aggregate = false;
          },
        ))
select_star-flush_example =
    select_star-flush fixed_point fixed_point-IsIeee two_columns options new_table offered stored
      refl created filled_flushed stored-IsU64 accepted-room offered-Encodable by_bits everything
      id_read (some (false ∷ true ∷ [])) refl second_selected selected-room

-- The text and then the key.
abbrev swapped : Query
swapped = record everything {
  projection = ProjectionKind.columns;
  columns = text.name ∷ id_name ∷ [];
}

select_columns-flush_example :
    (v : Segment) × (parse_segment stored ≡ ok (file_segment filled))
    × (execute by_bits (file_segment filled) swapped
        ≡ ok (
          v,
          projected swapped.columns (1 ∷ 0 ∷ []) (
              matching
                (meets_filter by_bits two_columns everything.filter)
                (accepted_of new_table offered)),
        ))
select_columns-flush_example =
    select_columns-flush fixed_point fixed_point-IsIeee two_columns options new_table offered stored
      refl created filled_flushed stored-IsU64 accepted-room offered-Encodable by_bits swapped
      (1 ∷ 0 ∷ []) id_read (some (false ∷ true ∷ [])) refl
      ((text, refl, refl), ((record { name = id_name; type = ColumnType.int64 }, refl, refl), tt))
      second_selected selected-room

count_star-flush_example :
    (parse_segment stored ≡ ok (file_segment filled))
    × (execute by_bits
          (file_segment filled)
          (record everything { projection = ProjectionKind.count_star })
        ≡ ok (
          id_read,
          count_answer (
              length (
                matching
                  (meets_filter by_bits two_columns everything.filter)
                  (accepted_of new_table offered))),
        ))
count_star-flush_example =
    count_star-flush fixed_point fixed_point-IsIeee two_columns options new_table offered stored
      refl created filled_flushed stored-IsU64 accepted-room offered-Encodable by_bits
      (record everything { projection = ProjectionKind.count_star }) id_read
      (some (false ∷ true ∷ [])) refl second_selected

-- ===== src/Tests/Tables.antt =====
-- Schemas, buffers and tables with two columns.
use uniqcol.Common.{Bytes, [], arith, false, length, ok, refl, some, ◌%◌, ◌+◌, ◌-◌, ◌↔◌, ◌∷◌, ◌≡◌}
use uniqcol.Tests.Floating.{Fixed, fixed_point, fixed_point-IsIeee}
use uniqcol.Tests.Filters.{small, small-IsValid}
use uniqcol.Storage.Types.{ColumnType, Column, Schema, Value, Row, validate, pk_index}
use uniqcol.Storage.Types.Schemas.{DistinctNames}
use uniqcol.Storage.Types.Validation.{HasKey, validate_iff}
use uniqcol.Storage.Buffer.{new_write_buffer, append}
use uniqcol.Storage.Buffer.Cells.{Represents, new_write_buffer-Represents}
use uniqcol.Storage.Buffer.Append.{RowFits, appended, append-Represents, append_fits}
use uniqcol.Storage.Table.{Table, TableOptions, Reason, create_table, pk_bytes, insert}
use uniqcol.Storage.Table.History.{DistinctKeys, insert_all, accepted_of}
use uniqcol.Storage.Table.Sessions.{create_table-insert_all, duplicate_rejected, insert_all-counts}
use uniqcol.Bloom.Filter.{u64_mod, contains, add}
use uniqcol.Bloom.Sizing.{new}

abbrev pub id_name : Bytes
id_name = b'i' ∷ b'd' ∷ []

abbrev text_name : Bytes
text_name = b't' ∷ []

abbrev pub text : Column
text = record { name = text_name; type = ColumnType.string }

abbrev pub two_columns : Schema
two_columns = record {
  pk = id_name;
  columns = record { name = id_name; type = ColumnType.int64 } ∷ text ∷ [];
}

abbrev pub row_one : Row
row_one = Value.int64 1 ∷ Value.string (b'x' ∷ []) ∷ []

abbrev pub row_two : Row
row_two = Value.int64 2 ∷ Value.string (b'x' ∷ []) ∷ []

-- The key of the first row, and another text.
abbrev pub row_again : Row
row_again = Value.int64 1 ∷ Value.string (b'y' ∷ []) ∷ []

abbrev pub options : TableOptions Fixed
options = record {
  bloom_expected_items = 3;
  bloom_target_fpr = (false, 10);
  bloom_disabled = false;
}

abbrev pub new_table : Table
new_table = record {
  schema = two_columns;
  buf = new_write_buffer two_columns;
  bloom = some small;
  pk_idx = 0;
  pk_type = ColumnType.int64;
  accepted = 0;
  rejected = 0;
}

pub created : create_table fixed_point two_columns options ≡ ok new_table
unfolding create_table validate new pk_index
created = refl

-- One of three offered rows is refused.
pub two_accepted :
    accepted_of new_table (row_one ∷ row_two ∷ row_again ∷ []) ≡ row_one ∷ row_two ∷ []
unfolding accepted_of pk_bytes contains append new_write_buffer add
two_accepted = refl

create_table-insert_all_example :
    Represents
      (insert_all new_table (row_one ∷ row_two ∷ row_again ∷ [])).buf
      (accepted_of new_table (row_one ∷ row_two ∷ row_again ∷ []))
    × DistinctKeys 0 ColumnType.int64 (accepted_of new_table (row_one ∷ row_two ∷ row_again ∷ []))
create_table-insert_all_example =
    create_table-insert_all fixed_point fixed_point-IsIeee two_columns options new_table
      (row_one ∷ row_two ∷ row_again ∷ []) refl created

duplicate_rejected_example :
    (insert (insert_all new_table (row_one ∷ row_two ∷ row_again ∷ [])) row_again).1
    ≡ record { accepted = false; reason = some Reason.duplicate }
unfolding pk_bytes
duplicate_rejected_example =
    duplicate_rejected fixed_point fixed_point-IsIeee two_columns options new_table
      (row_one ∷ row_two ∷ row_again ∷ []) [] (row_two ∷ []) row_one row_again
      (1 ∷ 0 ∷ 0 ∷ 0 ∷ 0 ∷ 0 ∷ 0 ∷ 0 ∷ []) refl created two_accepted refl refl refl

insert_all-counts_example :
    ((insert_all new_table (row_one ∷ row_again ∷ [])).accepted
      ≡ (0 + length (accepted_of new_table (row_one ∷ row_again ∷ []))) % u64_mod)
    × ((insert_all new_table (row_one ∷ row_again ∷ [])).rejected
        ≡ (0 + (2 - length (accepted_of new_table (row_one ∷ row_again ∷ [])))) % u64_mod)
insert_all-counts_example =
    insert_all-counts new_table (row_one ∷ row_again ∷ []) small-IsValid (omega arith) (omega arith)

append-Represents_example :
    RowFits two_columns.columns row_one
    × ((appended (new_write_buffer two_columns) row_one).schema ≡ two_columns)
    × Represents (appended (new_write_buffer two_columns) row_one) (row_one ∷ [])
unfolding new_write_buffer
append-Represents_example =
    append-Represents (new_write_buffer two_columns)
      (appended (new_write_buffer two_columns) row_one) [] row_one
      (new_write_buffer-Represents two_columns)
      (append_fits (new_write_buffer two_columns) row_one (tt, (tt, tt)))

validate_iff_example :
    (validate two_columns ≡ ok tt)
    ↔ (DistinctNames two_columns.columns × HasKey id_name two_columns.columns)
validate_iff_example = validate_iff two_columns

-- ===== src/Tests/Reloads.antt =====
-- A table of two rows, written and loaded.
use uniqcol.Common.{Bytes, [], arith, false, length, ltb→lt, ok, refl, some, ◌∷◌, ◌≡◌}
use uniqcol.Tests.Floating.{fixed_point, fixed_point-IsIeee}
use uniqcol.Tests.Segments.{bytes_of}
use uniqcol.Tests.Tables.{
  two_columns, row_one, row_two, row_again, options, new_table, created, two_accepted,
}
use uniqcol.Storage.Buffer.{new_write_buffer, append, store_row}
use uniqcol.Storage.Table.{Table, Reason, pk_bytes, insert}
use uniqcol.Storage.Table.History.{insert_all, accepted_of}
use uniqcol.Storage.Table.Files.{flush, load_table}
use uniqcol.Storage.Table.Files.Reload.{reload_rejects}
use uniqcol.Binary.{IsU64, put_uvarint, put_uint_le}
use uniqcol.Bloom.Filter.{contains, add}
use uniqcol.Bloom.Wire.{marshal_binary}
use uniqcol.Storage.Segment.{column_type_to_wire}
use uniqcol.Storage.Segment.Write.{
  put_columns, buffered, put_header, put_flags, flags_of, put_block, block_of, put_bloom,
}
use uniqcol.Storage.Codec.Rle.{encode_rle_int64, encode_rle_string}

abbrev pub filled : Table
filled = insert_all new_table (row_one ∷ row_two ∷ row_again ∷ [])

abbrev pub stored : Bytes
stored = bytes_of (flush filled)

pub filled_flushed : flush filled ≡ ok stored
unfolding flush insert_all pk_bytes contains append new_write_buffer add put_columns buffered
    column_type_to_wire
filled_flushed = refl

pub stored-IsU64 : IsU64 (length stored)
unfolding flush insert_all pk_bytes contains append new_write_buffer add put_columns buffered
    column_type_to_wire put_header put_flags put_uvarint put_uint_le flags_of put_block block_of
    encode_rle_int64 encode_rle_string put_bloom marshal_binary store_row
stored-IsU64 = ltb→lt (length stored) 0x1_0000_0000_0000_0000 refl

accepted-IsU64 : IsU64 (length (accepted_of new_table (row_one ∷ row_two ∷ row_again ∷ [])))
accepted-IsU64 = rw two_accepted (omega arith)

reload_rejects_example :
    (u : Table) × (load_table stored ≡ ok u)
    × (u.schema ≡ two_columns)
    × (u.buf ≡ new_write_buffer two_columns)
    × ((insert u row_again).1 ≡ record { accepted = false; reason = some Reason.duplicate })
unfolding pk_bytes
reload_rejects_example =
    reload_rejects fixed_point fixed_point-IsIeee two_columns options new_table
      (row_one ∷ row_two ∷ row_again ∷ []) [] (row_two ∷ []) row_one row_again
      (1 ∷ 0 ∷ 0 ∷ 0 ∷ 0 ∷ 0 ∷ 0 ∷ 0 ∷ []) stored refl created two_accepted filled_flushed
      (omega arith) stored-IsU64 accepted-IsU64 refl refl refl

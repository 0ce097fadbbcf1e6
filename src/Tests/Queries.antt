-- ===== src/Tests/Queries.antt =====
-- Sums and counts over a few rows.
use uniqcol.Common.{
  Bool, Bytes, List, Option, [], arith, false, length, none, ok, refl, some, true, ℕ, ◌*◌, ◌+◌, ◌↔◌,
  ◌∷◌, ◌≡◌,
}
use uniqcol.Query.{Answer}
use uniqcol.Query.Compare.{biased}
use uniqcol.Query.Aggregate.{add_int64_checked, sum_int64, exec_project}
use uniqcol.Query.Aggregate.Sums.{kept, biased_total, add_int64_checked_iff, sum_int64_lem}
use uniqcol.Binary.{IsU64}
use uniqcol.Storage.Segment.{Segment, int64s}
use uniqcol.Storage.Types.{Value, ColumnType}

-- The largest int64 and one.
add_int64_checked_iff_example :
    (add_int64_checked 0x7fff_ffff_ffff_ffff 1 ≡ some 0x8000_0000_0000_0000) ↔ (
      IsU64 0x8000_0000_0000_0000
      × (biased 0x8000_0000_0000_0000 + 0x8000_0000_0000_0000
          ≡ biased 0x7fff_ffff_ffff_ffff + biased 1))
add_int64_checked_iff_example =
    add_int64_checked_iff 0x7fff_ffff_ffff_ffff 1 0x8000_0000_0000_0000 (omega arith) (omega arith)

-- Five and minus two, with a seven between them that is not selected.
abbrev amounts : List ℕ
amounts = 5 ∷ 7 ∷ 0xffff_ffff_ffff_fffe ∷ []

abbrev chosen : Option (List Bool)
chosen = some (true ∷ false ∷ true ∷ [])

three : sum_int64 [] chosen 0 amounts 0 ≡ ok 3
unfolding sum_int64
three = refl

sum_int64_lem_example :
    biased 3 + 0x8000_0000_0000_0000 * length (kept chosen 0 amounts)
    ≡ 0x8000_0000_0000_0000 + biased_total (kept chosen 0 amounts)
sum_int64_lem_example =
    sum_int64_lem [] chosen amounts 3 (omega arith, (omega arith, (omega arith, tt))) three

-- A segment whose only column is decoded already.
abbrev amount : Bytes
amount = b'a' ∷ []

abbrev cached : Segment
cached = record {
  version = 2;
  schema = record { pk = amount; columns = record { name = amount; type = ColumnType.int64 } ∷ [] };
  row_count = 3;
  blocks = [];
  decoded = (amount, int64s amounts) ∷ [];
  flags = 0;
  pk_name = [];
  bloom_filter = none;
}

abbrev selected : Answer
selected = record {
  columns = amount ∷ [];
  rows = (Value.int64 5 ∷ []) ∷ (Value.int64 0xffff_ffff_ffff_fffe ∷ []) ∷ [];
  is_aggregate = false;
}

projected : exec_project cached (amount ∷ []) chosen ≡ ok (cached, selected)
unfolding exec_project
projected = refl

-- ===== src/Tests/Benches.antt =====
-- Six rows of the benchmarks, half of them with a key that was there.
use uniqcol.Common.{All, List, arith, length, ltb, ok, refl, ℕ, ◌%◌, ◌*◌, ◌++◌, ◌+◌, ◌/◌, ◌≡◌, ◌≤◌}
use native.Mathlib.Nat.{mod-lt}
use uniqcol.Bench.{Random, RowFloats, gen_rows, wanted_dups}
use uniqcol.Bench.Ids.{HaveIds, count_from, IsBetween}
use uniqcol.Bench.Rows.{gen_rows_lem, IsInRange}
use uniqcol.Bench.Loads.{gen_rows-accepted}
use uniqcol.Storage.Buffer.{new_write_buffer}
use uniqcol.Storage.Types.{validate, pk_index}
use uniqcol.Bloom.Sizing.{new}
use uniqcol.Tests.Tables.{new_table, options}
use uniqcol.Bench.{bench_schema}
use uniqcol.Storage.Table.{Table, create_table}
use uniqcol.Storage.Table.History.{accepted_of}
use uniqcol.Tests.Floating.{fixed_point, fixed_point-IsIeee}
use uniqcol.Storage.Types.{Row}

-- Numbers in units of the bits of 1.
abbrev unit : ℕ
unit = 0x3FF0_0000_0000_0000

abbrev scaled : RowFloats
scaled = record {
  multiply = λ x y. x * y / unit;
  divide = λ x y. x * unit / y;
  round = λ x. x;
  floor = λ x. x / unit * unit;
  of_int = λ n. n * unit;
  to_int = λ x. x / unit;
  less = ltb;
}

abbrev counting : Random
counting = record {
  Source = ℕ;
  new_source = λ seed. seed;
  intn = λ n r. (r % n, r + 1);
  unit_float = λ r. (r, r + 1);
}

counting-IsInRange : IsInRange counting
counting-IsInRange n r pos small = mod-lt r (omega arith)

abbrev half : ℕ
half = 0x1FF8_0000_0000_0000

gen_rows_lem_example :
    (rows : List Row) × (copies : List ℕ) × (gen_rows scaled counting 6 half 7 ≡ ok rows)
    × (length copies ≡ 3)
    × HaveIds (count_from 1 3 ++ copies) rows
    × All (IsBetween 1 3) copies
unfolding wanted_dups
gen_rows_lem_example =
    gen_rows_lem scaled counting 6 half 7 counting-IsInRange (omega arith) (omega arith) refl

abbrev bench_table : Table
bench_table = record new_table { schema = bench_schema; buf = new_write_buffer bench_schema }

created : create_table fixed_point bench_schema options ≡ ok bench_table
unfolding create_table validate new pk_index bench_schema
created = refl

gen_rows-accepted_example :
    (rows : List Row) × (gen_rows scaled counting 6 half 7 ≡ ok rows)
    × (length rows ≡ 6)
    × (length (accepted_of bench_table rows) ≤ 3)
unfolding wanted_dups
gen_rows-accepted_example =
    gen_rows-accepted fixed_point fixed_point-IsIeee options bench_table scaled counting 6 half 7
      refl created counting-IsInRange (omega arith) (omega arith) refl

-- ===== src/Lib.antt =====
-- uniqcol: a column store whose tables reject a row with a known key when it is written.
--
-- A table (storage/table.go) holds a schema (storage/types.go), a write buffer that keeps each column
-- in a slice of its own (storage/buffer.go), and a Bloom filter over the keys (bloom/bloom.go).
-- `Insert` asks the filter, appends the row to the buffer and adds the key. A segment file
-- (storage/segment.go) is written from the buffer, with one block for each column, encoded raw
-- (storage/encoding.go) or by run lengths (storage/rle.go), and with the filter as a trailer. A query
-- (query/parser.go) is parsed into a projection and a tree of conditions; its execution
-- (query/exec.go) reads columns from a parsed segment, filters rows and counts, sums, groups or
-- projects them. The command `load` (cmd/uniqcol/load.go) fills a table from a CSV file, and the
-- benchmarks fill one with rows of a generator (bench/datagen.go).
--
-- Which module models what:
--   Common          lists, Boolean tests and results over native numbers
--   Binary          encoding/binary: uvarints and little-endian numbers on lists of bytes
--   Storage.Types   storage/types.go: `Validate` (validate), `ColumnIndex` (column_index), `PKIndex`
--   Storage.Codec   storage/rle.go (Rle: encode_rle_*, decode_rle_*) and storage/encoding.go (Raw)
--   Storage.Buffer  storage/buffer.go: `Append`, `Reset`; Cells holds the list of rows it stands for
--   Storage.Table   storage/table.go: `CreateTable`, `Insert`, `Stats`, `pkBytes`, and in Files `Flush`
--                   and `LoadTable`
--   Storage.Segment storage/segment.go: `WriteSegment` (Write), `parseSegment` (Parse), `ReadColumn`
--                   and `ColumnInfo` (Read), `ReadSegmentHeader` (Header)
--   Bloom           bloom/bloom.go: `Add`, `Contains` (Filter, and with the panics of
--                   indexing in Filter.Indexing), `New` (Sizing), `MarshalBinary`,
--                   `UnmarshalBinary` (Wire)
--   Query           query/exec.go: comparisons and scans (Compare), `evaluate` (Evaluate), `execCount`,
--                   `execSum`, `execProject` (Aggregate), `execGrouped` (Group), `Execute` (Execute);
--                   query/parser.go: `lex` (Lexer, with Lexemes for what it reads) and the parser
--                   (Parser, with Projection and Where, and Printer for the statements of the grammar)
--   Load            cmd/uniqcol/load.go: `parseSchemaSpec`, `parseFieldByType`, and `runLoad` from the
--                   schema to the last record
--   Command         cmd/uniqcol: `runQuery` (Queries), `runLoad` as a whole (Loads), `runInspect` and
--                   the choice of the subcommand (Inspect), `commaSepUint64` and `humanBytes` (Format)
--   Bench           bench/datagen.go: `BenchSchema` (bench_schema) and `GenRows` (gen_rows)
--   Tests           the theorems at concrete inputs
--
-- How state and failure are modelled: a function that changes an object returns the new one. A
-- `Result` is a value, an error, a panic of the runtime, or `stuck`, which stands for fuel that ran
-- out. A byte is a number below 256, an int64 and a float64 are their 64 bits, and wrapping is written
-- out as a remainder. A slice that `make` is asked for panics past 2 ^ 48 bytes, the address space of
-- a 64-bit machine.
-- An index of the Bloom filter's array out of range panics in Bloom.Filter.Indexing; tables use
-- `add` and `contains`, which agree with it on a well-formed filter, and not on a corrupt one.
--
-- Fuel: the decoders of columns take the length of the payload as fuel, and each round uses up at
-- least one byte. The lexer takes the length of the input, and each round uses up a byte. The loops of
-- the parser take the number of tokens that are left, and each round takes a token that is not the last.
--
-- Parameters: float64 and package math in `New` (Bloom.Sizing.Floats, whose documented behaviour is
-- IsIeee), the float64 operations of the queries (Query.FloatOps, of which NanDiffers is what is
-- relied on) and of the generator (Bench.RowFloats), package rand (Bench.Random, whose documented
-- bound is IsInRange), and `strconv` and `strings.TrimSpace` for texts (Query.Parser.Where.Literals,
-- `trim`). Of the commands: package flag (its outcome is an argument), package os (Loads.FileSystem),
-- text/tabwriter and encoding/csv (Queries.Layout), strconv and fmt for printed numbers (Format.Texts),
-- and exp and pow of the estimate (Bloom.Powers). FNV-1a of 128 bits is written out after hash/fnv.
--
-- Not modelled: the wall time and the throughput of `load`, the usage texts, the texts of error
-- messages and the labels of printed lines, and version.go, which prints a constant.
pub mod Common
pub mod Binary
pub mod Storage
pub mod Bloom
pub mod Query
pub mod Load
pub mod Bench
pub mod Command
pub mod Tests

-- ===== src/Command/Pipeline.antt =====
-- A CSV file that is loaded, and the file that is written then queried.
use uniqcol.Query.{Query}
use uniqcol.Storage.Segment.{Segment}
use uniqcol.Storage.Table.{Table}

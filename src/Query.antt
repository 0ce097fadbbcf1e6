-- ===== src/Query.antt =====
-- query/: the syntax of queries, query/parser.go and query/exec.go. The texts of the error messages
-- are left out, but for the names and positions in them.
pub mod Compare
pub mod Evaluate
pub mod Aggregate
pub mod Group
pub mod Execute
pub mod Lexer
pub mod Parser
use uniqcol.Common.{Bool, Bytes, List, Option, ℕ}
use uniqcol.Storage.Segment.{Segment}
use uniqcol.Storage.Types.{Value}

pub data FilterOp : Type 0 where
  eq neq lt gt lte gte : FilterOp

-- A leaf of the WHERE expression; `value` is the literal that the parser saw.
pub record Comparison : Type 0 where
  pub column : Bytes
  pub op : FilterOp
  pub value : Value
  pub pos : ℕ

-- One node: the first of the three pointers that is not nil, or none of them. A list of children is
-- one data type with its own constructors.
mutual
  pub data FilterExpr : Type 0 where
    comparison : Comparison → FilterExpr
    conj disj : FilterExprs → FilterExpr
    malformed : FilterExpr

  pub data FilterExprs : Type 0 where
    end : FilterExprs
    child : FilterExpr → FilterExprs → FilterExprs

pub data ProjectionKind : Type 0 where
  columns star count_star sum_column grouped : ProjectionKind

pub data AggregateKind : Type 0 where
  count_star sum_column : AggregateKind

-- A parsed SELECT statement. Fields that a projection does not use are empty.
pub record Query : Type 0 where
  pub projection : ProjectionKind
  pub columns : List Bytes
  pub sum_column : Bytes
  pub group_by : Bytes
  pub group_agg : AggregateKind
  pub filter : Option FilterExpr

pub data Error : Type 0 where
  unknown_column type_mismatch sum_overflow : Bytes → Error
  unsupported_type malformed_expr : Error
  read : Bytes → uniqcol.Storage.Segment.Error → Error

-- The rows that a query answers with, under their headers.
pub record Answer : Type 0 where
  pub columns : List Bytes
  pub rows : List (List Value)
  pub is_aggregate : Bool

-- Go's operations on float64, which are those of IEEE 754, on the bits of the numbers.
pub record FloatOps : Type 0 where
  pub float_eq : ℕ → ℕ → Bool
  pub float_lt : ℕ → ℕ → Bool
  pub float_le : ℕ → ℕ → Bool
  pub float_add : ℕ → ℕ → ℕ

-- ===== src/Query/Parser.antt =====
-- `parseQuery` and `Parse` of query/parser.go.
pub mod State
pub mod Where
pub mod Projection
pub mod Steps
pub mod Total
pub mod Printer
pub mod RoundTrip
use uniqcol.Common.{
  Bytes, List, Result, [], bytes_eq, err, fail_if, if◌then◌else◌, length, not, ok, panic, some,
  ◌==◌, ◌>>=◌, ◌>>◌, ◌∷◌,
}
use uniqcol.Query.{Query, ProjectionKind}
use uniqcol.Query.Lexer.{
  TokenKind, ParseError, problem_at, group_by_missing, group_by_mismatch, group_by_no_aggregate,
  group_by_not_projected, lex, kw_select, kw_from, kw_where, kw_group, kw_by, kw_having,
  trailing_token, expected_select, from_clause, having_clause, expected_by, expected_column,
  several_group_columns,
}
use uniqcol.Query.Parser.State.{Tokens, peek, advance, kind_is, is_kw}
use uniqcol.Query.Parser.Where.{Literals, parse_where}
use uniqcol.Query.Parser.Projection.{empty_query, parse_projection}

-- `parseGroupBy`.
unfoldable pub parse_group_by : Query → Tokens → Result ParseError (Query × Tokens)
unfolding advance peek
parse_group_by q toks = do
  (group, toks₁) ← advance toks
  (by, toks₂) ← advance toks₁
  fail_if (not (is_kw kw_by by)) (problem_at by.pos expected_by)
  (col, toks₃) ← advance toks₂
  fail_if (not (kind_is TokenKind.ident col)) (problem_at col.pos expected_column)
  next ← peek toks₃
  fail_if (kind_is TokenKind.comma next) (problem_at next.pos several_group_columns)
  ok (record q { group_by = col.text }, toks₃)

-- `validateGrouped`, by the projection: the name of the group column, and the projected columns.
unfoldable pub validate_grouped : ProjectionKind → Bytes → List Bytes → Result ParseError (Unit {0})
unfolding bytes_eq
validate_grouped ProjectionKind.grouped group_by [] =
    if length group_by == 0 then err group_by_missing else panic
validate_grouped ProjectionKind.grouped group_by (c ∷ cs) = do
  fail_if (length group_by == 0) group_by_missing
  fail_if (not (bytes_eq group_by c)) group_by_mismatch
validate_grouped ProjectionKind.columns group_by cols =
    fail_if (not (length group_by == 0)) group_by_no_aggregate
validate_grouped _ group_by cols = fail_if (not (length group_by == 0)) group_by_not_projected

-- The optional clauses.
unfoldable pub where_clause : Literals → Query → Tokens → Result ParseError (Query × Tokens)
unfolding advance parse_where
where_clause lit q toks = do
  (t, toks₁) ← advance toks
  (e, toks₂) ← parse_where lit toks₁
  ok (record q { filter = some e }, toks₂)

unfoldable pub parse_clauses : Literals → Query → Tokens → Result ParseError (Query × Tokens)
unfolding peek where_clause parse_group_by validate_grouped
parse_clauses lit q toks = do
  t ← peek toks
  fail_if (is_kw kw_from t) (problem_at t.pos from_clause)
  (q₁, toks₁) ← if is_kw kw_where t then where_clause lit q toks else ok (q, toks)
  u ← peek toks₁
  (q₂, toks₂) ← if is_kw kw_group u then parse_group_by q₁ toks₁ else ok (q₁, toks₁)
  hav ← peek toks₂
  fail_if (is_kw kw_having hav) (problem_at hav.pos having_clause)
  validate_grouped q₂.projection q₂.group_by q₂.columns
  ok (q₂, toks₂)

unfoldable pub parse_query : Literals → Tokens → Result ParseError (Query × Tokens)
unfolding advance parse_projection parse_clauses
parse_query lit toks = do
  (t, toks₁) ← advance toks
  fail_if (not (is_kw kw_select t)) (problem_at t.pos expected_select)
  (q, toks₂) ← parse_projection empty_query toks₁
  parse_clauses lit q toks₂

-- `Parse`.
unfoldable pub parse : Literals → Bytes → Result ParseError Query
unfolding lex parse_query peek
parse lit input = do
  toks ← lex input
  (q, rest) ← parse_query lit toks
  t ← peek rest
  fail_if (not (kind_is TokenKind.eof t)) (problem_at t.pos trailing_token)
  ok q

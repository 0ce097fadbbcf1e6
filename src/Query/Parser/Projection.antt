-- ===== src/Query/Parser/Projection.antt =====
-- `parseProjection` of query/parser.go.
pub mod Total
pub mod Printed
use uniqcol.Common.{
  Bytes, Result, [], bytes_eq, err, fail_if, false, if◌then◌else◌, length, none, not, ok, stuck,
  suc, true, zero, ℕ, ◌++◌, ◌==◌, ◌>>=◌, ◌>>◌, ◌||◌, ◌∷◌,
}
use uniqcol.Query.{Query, ProjectionKind, AggregateKind}
use uniqcol.Query.Lexer.{
  TokenKind, Token, ParseError, problem_at, kw_count, kw_sum, expected_star, expected_column,
  grouped_shape, star_in_columns, expected_projection,
}
use uniqcol.Query.Parser.State.{Tokens, peek, advance, kind_is, is_kw, expect_kind}

-- `&Query{}`
abbrev pub empty_query : Query
empty_query = record {
  projection = ProjectionKind.columns;
  columns = [];
  sum_column = [];
  group_by = [];
  group_agg = AggregateKind.count_star;
  filter = none;
}

-- `( * )` behind COUNT.
unfoldable pub count_argument : Tokens → Result ParseError Tokens
unfolding advance expect_kind
count_argument toks = do
  toks₁ ← expect_kind TokenKind.lparen toks
  (next, toks₂) ← advance toks₁
  fail_if (not (kind_is TokenKind.star next)) (problem_at next.pos expected_star)
  expect_kind TokenKind.rparen toks₂

-- `( col )` behind SUM.
unfoldable pub sum_argument : Tokens → Result ParseError (Bytes × Tokens)
unfolding advance expect_kind
sum_argument toks = do
  toks₁ ← expect_kind TokenKind.lparen toks
  (next, toks₂) ← advance toks₁
  fail_if (not (kind_is TokenKind.ident next)) (problem_at next.pos expected_column)
  toks₃ ← expect_kind TokenKind.rparen toks₂
  ok (next.text, toks₃)

-- `parseGroupedAggregate`, whose first token is COUNT or SUM.
unfoldable pub parse_grouped_aggregate : Query → Tokens → Result ParseError (Query × Tokens)
unfolding advance count_argument sum_argument
parse_grouped_aggregate q toks = do
  (agg, toks₁) ← advance toks
  if bytes_eq agg.text kw_count
      then (do
        toks₂ ← count_argument toks₁
        ok (
          record q { group_agg = AggregateKind.count_star; projection = ProjectionKind.grouped },
          toks₂,
        ))
      else (do
        (col, toks₂) ← sum_argument toks₁
        ok (
          record q {
            group_agg = AggregateKind.sum_column;
            sum_column = col;
            projection = ProjectionKind.grouped;
          },
          toks₂,
        ))

-- The aggregate behind the first column, and what may not follow it.
unfoldable pub grouped_projection : Query → Token → Tokens → Result ParseError (Query × Tokens)
unfolding peek parse_grouped_aggregate
grouped_projection q n toks = do
  fail_if (not (length q.columns == 1)) (problem_at n.pos grouped_shape)
  (q₁, toks₁) ← parse_grouped_aggregate q toks
  next ← peek toks₁
  fail_if (kind_is TokenKind.comma next) (problem_at next.pos grouped_shape)
  ok (q₁, toks₁)

-- One more column.
unfoldable pub next_column : Query → Tokens → Result ParseError (Query × Tokens)
unfolding advance
next_column q toks = do
  (n, toks₁) ← advance toks
  fail_if (kind_is TokenKind.star n) (problem_at n.pos star_in_columns)
  fail_if (not (kind_is TokenKind.ident n)) (problem_at n.pos expected_column)
  ok (record q { columns = q.columns ++ n.text ∷ [] }, toks₁)

-- The loop over the columns, with one unit of fuel a round.
unfoldable pub column_list : ℕ → Query → Tokens → Result ParseError (Query × Tokens)
unfolding peek advance grouped_projection next_column
column_list zero q toks = stuck
column_list (suc fuel) q toks = do
  t ← peek toks
  elim (kind_is TokenKind.comma t) [
    | false ↦ ok (q, toks)
    | true ↦ (do
      (_, toks₁) ← advance toks
      n ← peek toks₁
      elim (is_kw kw_count n || is_kw kw_sum n) [
        | true ↦ grouped_projection q n toks₁
        | false ↦ (do (q₁, toks₂) ← next_column q toks₁; column_list fuel q₁ toks₂)
      ])
  ]

-- A round takes two tokens, unless the list has only one left.
unfoldable pub parse_column_list : Query → Tokens → Result ParseError (Query × Tokens)
unfolding advance column_list
parse_column_list q toks = do
  (first, toks₁) ← advance toks
  column_list (length toks₁)
      (record q { projection = ProjectionKind.columns; columns = first.text ∷ [] }) toks₁

unfoldable pub parse_projection : Query → Tokens → Result ParseError (Query × Tokens)
unfolding peek advance count_argument sum_argument parse_column_list
parse_projection q toks = do
  t ← peek toks
  if kind_is TokenKind.star t
      then (do (_, toks₁) ← advance toks; ok (record q { projection = ProjectionKind.star }, toks₁))
      else if is_kw kw_count t
      then (do
        (_, toks₁) ← advance toks
        toks₂ ← count_argument toks₁
        ok (record q { projection = ProjectionKind.count_star }, toks₂))
      else if is_kw kw_sum t
      then (do
        (_, toks₁) ← advance toks
        (col, toks₂) ← sum_argument toks₁
        ok (record q { projection = ProjectionKind.sum_column; sum_column = col }, toks₂))
      else if kind_is TokenKind.ident t
      then parse_column_list q toks
      else err (problem_at t.pos expected_projection)

-- ===== src/Query/Parser/Where.antt =====
-- `parseComparison` and `parseWhere` of query/parser.go.
pub mod Meaning
pub mod Total
pub mod Printed
use uniqcol.Common.{
  Bytes, List, Option, Result, [], bytes_eq, err, fail_if, if◌then◌else◌, length, none, not, ok,
  or_fail, some, stuck, suc, zero, ℕ, ◌++◌, ◌>>=◌, ◌>>◌, ◌∷◌,
}
use uniqcol.Query.{
  FilterOp, Comparison, FilterExpr, FilterExprs, comparison, conj, disj, end, child,
}
use uniqcol.Query.Lexer.{
  TokenKind, Token, ParseError, problem_at, kw_and, kw_or, missing_connective, parentheses,
  expected_operator, unknown_operator, expected_column, bad_integer, bad_float, expected_literal,
}
use uniqcol.Query.Parser.State.{Tokens, peek, advance, kind_is, is_kw}
use uniqcol.Storage.Types.{Value}

-- `strconv.ParseInt` and `strconv.ParseFloat`: the bits of the number, or `none` for an error.
pub record Literals : Type 0 where
  pub parse_int : Bytes → Option ℕ
  pub parse_float : Bytes → Option ℕ

unfoldable pub parse_op : Bytes → Option FilterOp
unfolding bytes_eq
parse_op text =
    if bytes_eq text (b'=' ∷ [])
    then some FilterOp.eq
    else if bytes_eq text (b'!' ∷ b'=' ∷ [])
    then some FilterOp.neq
    else if bytes_eq text (b'<' ∷ [])
    then some FilterOp.lt
    else if bytes_eq text (b'>' ∷ [])
    then some FilterOp.gt
    else if bytes_eq text (b'<' ∷ b'=' ∷ [])
    then some FilterOp.lte
    else if bytes_eq text (b'>' ∷ b'=' ∷ [])
    then some FilterOp.gte
    else none

-- The value of a literal by the kind of its token.
unfoldable pub literal_of : Literals → ℕ → Bytes → TokenKind → Result ParseError Value
literal_of lit pos text TokenKind.int = do
  v ← or_fail (lit.parse_int text) (problem_at pos bad_integer)
  ok (Value.int64 v)
literal_of lit pos text TokenKind.float = do
  v ← or_fail (lit.parse_float text) (problem_at pos bad_float)
  ok (Value.float64 v)
literal_of lit pos text TokenKind.string = ok (Value.string text)
literal_of lit pos text _ = err (problem_at pos expected_literal)

unfoldable pub literal_value : Literals → Token → Result ParseError Value
unfolding literal_of
literal_value lit t = literal_of lit t.pos t.text t.kind

unfoldable pub parse_comparison : Literals → Tokens → Result ParseError (Comparison × Tokens)
unfolding advance parse_op literal_value
parse_comparison lit toks = do
  (col, toks₁) ← advance toks
  fail_if (kind_is TokenKind.lparen col) (problem_at col.pos parentheses)
  fail_if (not (kind_is TokenKind.ident col)) (problem_at col.pos expected_column)
  (op_tok, toks₂) ← advance toks₁
  fail_if (kind_is TokenKind.ident op_tok) (problem_at op_tok.pos missing_connective)
  fail_if (not (kind_is TokenKind.op op_tok)) (problem_at op_tok.pos expected_operator)
  o ← or_fail (parse_op op_tok.text) (problem_at op_tok.pos unknown_operator)
  (l, toks₃) ← advance toks₂
  v ← literal_value lit l
  ok (record { column = col.text; op = o; value = v; pos = col.pos }, toks₃)

pub data Connective : Type 0 where
  and_also or_else : Connective

-- The connective that a token is, if it is one.
unfoldable pub connective : Token → Option Connective
connective t =
    if is_kw kw_and t then some and_also else if is_kw kw_or t then some or_else else none

-- The comparisons behind the first one, each with the connective in front of it: `ops[i]` and
-- `comps[i+1]`. One unit of fuel a round.
abbrev pub Conditions : Type 0
Conditions = List (Connective × Comparison)

unfoldable pub parse_conditions : Literals → ℕ → Tokens → Result ParseError (Conditions × Tokens)
unfolding peek advance connective parse_comparison
parse_conditions lit zero toks = stuck
parse_conditions lit (suc fuel) toks = do
  t ← peek toks
  elim (connective t) [
    | some o ↦ (do
      (_, toks₁) ← advance toks
      (next, toks₂) ← parse_comparison lit toks₁
      (more, toks₃) ← parse_conditions lit fuel toks₂
      ok ((o, next) ∷ more, toks₃))
    | none ↦ (do
      fail_if (kind_is TokenKind.ident t) (problem_at t.pos missing_connective)
      ok ([], toks))
  ]

-- The second pass: `groups` are finished, `cur` is the current one.
unfoldable pub group_conditions :
    List (List Comparison) → List Comparison → Conditions → List (List Comparison)
group_conditions groups cur [] = groups ++ cur ∷ []
group_conditions groups cur ((and_also, c) ∷ rest) = group_conditions groups (cur ++ c ∷ []) rest
group_conditions groups cur ((or_else, c) ∷ rest) =
    group_conditions (groups ++ cur ∷ []) (c ∷ []) rest

-- The third pass: a node for each group, and one for all of them.
unfoldable pub leaves : List Comparison → FilterExprs
leaves [] = end
leaves (c ∷ cs) = child (comparison c) (leaves cs)

unfoldable pub lower_group : List Comparison → FilterExpr
unfolding leaves
lower_group (c ∷ []) = comparison c
lower_group cs = conj (leaves cs)

unfoldable pub group_nodes : List (List Comparison) → FilterExprs
unfolding lower_group
group_nodes [] = end
group_nodes (g ∷ gs) = child (lower_group g) (group_nodes gs)

unfoldable pub join_groups : List (List Comparison) → FilterExpr
unfolding lower_group group_nodes
join_groups (g ∷ []) = lower_group g
join_groups gs = disj (group_nodes gs)

unfoldable pub build_filter : Comparison → Conditions → FilterExpr
unfolding group_conditions join_groups
build_filter first rest = join_groups (group_conditions [] (first ∷ []) rest)

unfoldable pub parse_where : Literals → Tokens → Result ParseError (FilterExpr × Tokens)
unfolding parse_comparison parse_conditions build_filter
parse_where lit toks = do
  (first, toks₁) ← parse_comparison lit toks
  (rest, toks₂) ← parse_conditions lit (length toks₁) toks₁
  ok (build_filter first rest, toks₂)

-- ===== src/Tests/Parses.antt =====
-- Query texts.
use uniqcol.Common.{
  All, Bool, Bytes, List, [], arith, bytes_eq, false, if◌then◌else◌, leb, length, none, ok, panic,
  refl, some, stuck, true, ℕ, ◌+◌, ◌-◌, ◌∷◌, ◌≡◌, ◌≢◌, ◌≤◌,
}
use uniqcol.Query.{Comparison, FilterOp, Query, ProjectionKind, AggregateKind}
use uniqcol.Query.Parser.{parse}
use uniqcol.Query.Parser.Total.{parse_total, parse_grouping}
use uniqcol.Query.Parser.Where.{Literals, Conditions, and_also, or_else, build_filter, literal_of}
use uniqcol.Query.Lexer.{
  is_digit, is_ident_part, is_ident_start, is_keyword, kw_and, kw_or, kw_select, kw_where, lex,
}
use uniqcol.Query.Lexer.Lexemes.{
  IsWord, Lexeme, Proper, all_tokens, kind_of, render, text_of, tokens_at,
}
use uniqcol.Query.Lexer.RoundTrip.{unmoved, lex-render}
use uniqcol.Query.Parser.Printer.{
  Condition, NamedShape, ReadableClause, Shape, Statement, query_of, statement_lexemes,
}
use uniqcol.Query.Parser.RoundTrip.{parse-render, parse-tokens_at}
use uniqcol.Query.Parser.Where.Meaning.{holds, reading, holds-build_filter}
use uniqcol.Storage.Types.{Value}

-- Numbers of one digit.
abbrev pub digits : Literals
digits = record {
  parse_int = λ text. elim text [ [] ↦ none | c ∷ cs ↦ some (c - b'0') ];
  parse_float = λ text. none;
}

abbrev at_pos : ℕ → Comparison
at_pos n = record { column = b'a' ∷ []; op = FilterOp.eq; value = Value.int64 1; pos = n }

-- p OR q AND r, where p and q hold.
abbrev clause : Conditions
clause = (or_else, at_pos 2) ∷ (and_also, at_pos 3) ∷ []

abbrev early : Comparison → Bool
early c = leb c.pos 2

holds-build_filter_example :
    holds early (build_filter (at_pos 1) clause) ≡ reading early true clause
holds-build_filter_example = holds-build_filter early (at_pos 1) clause

-- select a,count(*) group by a
abbrev text : Bytes
text =
    b's' ∷ b'e' ∷ b'l' ∷ b'e' ∷ b'c' ∷ b't' ∷ b' ' ∷ b'a' ∷ b',' ∷ b'c' ∷ b'o' ∷ b'u' ∷ b'n' ∷ b't'
    ∷ b'(' ∷ b'*' ∷ b')' ∷ b' ' ∷ b'g' ∷ b'r' ∷ b'o' ∷ b'u' ∷ b'p' ∷ b' ' ∷ b'b' ∷ b'y' ∷ b' '
    ∷ b'a' ∷ []

parse_total_example : (parse digits text ≢ panic) × (parse digits text ≢ stuck)
parse_total_example = parse_total digits text

abbrev by_a : Query
by_a = record {
  projection = ProjectionKind.grouped;
  columns = (b'a' ∷ []) ∷ [];
  sum_column = [];
  group_by = b'a' ∷ [];
  group_agg = AggregateKind.count_star;
  filter = none;
}

parsed : parse digits text ≡ ok by_a
unfolding parse
parsed = refl

parse_grouping_example : (by_a.columns ≡ (b'a' ∷ []) ∷ []) × (1 ≤ length by_a.group_by)
parse_grouping_example = parse_grouping digits text by_a parsed

-- select a,count(*) where a=1 group by a
abbrev asked_text : Bytes
asked_text =
    b's' ∷ b'e' ∷ b'l' ∷ b'e' ∷ b'c' ∷ b't' ∷ b' ' ∷ b'a' ∷ b',' ∷ b'c' ∷ b'o' ∷ b'u' ∷ b'n' ∷ b't'
    ∷ b'(' ∷ b'*' ∷ b')' ∷ b' ' ∷ b'w' ∷ b'h' ∷ b'e' ∷ b'r' ∷ b'e' ∷ b' ' ∷ b'a' ∷ b'=' ∷ b'1'
    ∷ b' ' ∷ b'g' ∷ b'r' ∷ b'o' ∷ b'u' ∷ b'p' ∷ b' ' ∷ b'b' ∷ b'y' ∷ b' ' ∷ b'a' ∷ []

abbrev is_one : Condition
is_one = record { column = b'a' ∷ []; op = FilterOp.eq; value = Value.int64 1 }

abbrev asked : Statement
asked = record { shape = Shape.grouped_count (b'a' ∷ []); clause = some (is_one, []) }

-- Where its tokens are, by where they would be with one space behind each.
abbrev spots : ℕ → ℕ
spots n =
    if leb n 7
    then n
    else if leb n 9
    then n - 1
    else if leb n 11
    then n - 2
    else if leb n 17
    then n - 3
    else if leb n 19
    then n - 4
    else if leb n 29
    then n - 5
    else if leb n 31
    then n - 6
    else if leb n 44
    then n - 7
    else n - 8

abbrev one_digit : Value → Lexeme
one_digit (Value.int64 n) = Lexeme.number false (n + b'0') []
one_digit _ = Lexeme.quoted []

asked_tokens :
    lex asked_text ≡ ok (all_tokens (tokens_at spots 0 (statement_lexemes one_digit asked)))
unfolding lex statement_lexemes tokens_at
asked_tokens = refl

asked_readable : ReadableClause one_digit digits asked.clause
unfolding ReadableClause literal_of text_of kind_of
asked_readable = (λ p. refl, tt)

asked_named : NamedShape asked.shape
unfolding NamedShape
asked_named = omega arith

parse-tokens_at_example : parse digits asked_text ≡ ok (query_of one_digit spots asked)
parse-tokens_at_example =
    parse-tokens_at digits one_digit spots asked asked_text asked_tokens asked_readable asked_named

asked-Proper : All Proper (statement_lexemes one_digit asked)
unfolding statement_lexemes Proper IsWord is_ident_start is_ident_part is_digit is_keyword bytes_eq
asked-Proper = search refl depth 60

parse-render_example :
    parse digits (render (statement_lexemes one_digit asked))
    ≡ ok (query_of one_digit unmoved asked)
parse-render_example = parse-render digits one_digit asked asked-Proper asked_readable

-- SELECT n WHERE n != -1 AND b_2 >= 2.5 OR c = 'x'
abbrev lexemes : List Lexeme
lexemes =
    Lexeme.reserved kw_select (b'S' ∷ b'e' ∷ b'l' ∷ b'e' ∷ b'c' ∷ b't' ∷ [])
    ∷ Lexeme.identifier (b'n' ∷ [])
    ∷ Lexeme.reserved kw_where (b'w' ∷ b'h' ∷ b'e' ∷ b'r' ∷ b'e' ∷ [])
    ∷ Lexeme.identifier (b'n' ∷ [])
    ∷ Lexeme.operator FilterOp.neq
    ∷ Lexeme.number true b'1' []
    ∷ Lexeme.reserved kw_and kw_and
    ∷ Lexeme.identifier (b'b' ∷ b'_' ∷ b'2' ∷ [])
    ∷ Lexeme.operator FilterOp.gte
    ∷ Lexeme.decimal false b'2' [] (b'5' ∷ [])
    ∷ Lexeme.reserved kw_or kw_or
    ∷ Lexeme.identifier (b'c' ∷ [])
    ∷ Lexeme.operator FilterOp.eq
    ∷ Lexeme.quoted (b'x' ∷ [])
    ∷ []

lexemes-Proper : All Proper lexemes
unfolding Proper IsWord is_ident_start is_ident_part is_digit is_keyword
lexemes-Proper = search refl depth 60

lex-render_example : lex (render lexemes) ≡ ok (all_tokens (tokens_at unmoved 0 lexemes))
lex-render_example = lex-render lexemes lexemes-Proper

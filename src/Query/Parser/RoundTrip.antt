-- ===== src/Query/Parser/RoundTrip.antt =====
-- The parser reads back the lexemes of a statement.
use uniqcol.Common.{
  All, Bytes, List, Option, [], arith, bytes_eq, bytes_eq_refl, false, length, none, ok, refl, some,
  ℕ, ◌++◌, ◌==◌, ◌∷◌, ◌≡◌, ◌≤◌,
}
use uniqcol.Query.Lexer.{lex, kw_select, kw_where}
use uniqcol.Query.Lexer.Lexemes.{
  Lexeme, Proper, all_tokens, kind_of, pos_after, pos_after_all, render, text_of, tokens_at, IsWord,
}
use uniqcol.Query.Lexer.RoundTrip.{unmoved, lex-render}
use uniqcol.Query.Parser.{parse, parse_clauses, parse_group_by, parse_query, validate_grouped}
use uniqcol.Query.Parser.State.{advance, peek}
use uniqcol.Query.Parser.Where.{Literals, parse_conditions, parse_where, build_filter}
use uniqcol.Query.Parser.Where.Printed.{EndsClause, parse_where-tokens_at}
use uniqcol.Query.Parser.Projection.{column_list}
use uniqcol.Query.Parser.Projection.Printed.{EndsColumns, parse_projection-tokens_at}
use uniqcol.Query.Parser.Printer.{
  AllReadable, Condition, MoreConditions, NamedShape, Readable, ReadableClause, Shape, Statement,
  clause_lexemes, condition_lexemes, filter_of, group_lexemes, kw_lexeme, more_lexemes, placed,
  placed_all, projected_query, query_of, shape_lexemes, statement_lexemes, group_of,
}
use uniqcol.Storage.Types.{Value}

named : (g : Bytes) → 1 ≤ length g → (length g == 0) ≡ false
named g h = ground arith

module _ (lit : Literals) (literal : Value → Lexeme) (spots : ℕ → ℕ) where
  group_lexemes-EndsClause :
      (sh : Shape) (p : ℕ) → EndsClause lit (all_tokens (tokens_at spots p (group_lexemes sh)))
  unfolding group_lexemes parse_conditions bytes_eq tokens_at kind_of text_of
  group_lexemes-EndsClause (Shape.grouped_count g) p fuel = refl
  group_lexemes-EndsClause (Shape.grouped_sum g col) p fuel = refl
  group_lexemes-EndsClause _ p fuel = refl

  clause_lexemes-EndsColumns :
      (cl : Option (Condition × MoreConditions)) (sh : Shape)
      → EndsColumns spots (clause_lexemes literal cl ++ group_lexemes sh)
  unfolding clause_lexemes group_lexemes column_list tokens_at kind_of text_of
  clause_lexemes-EndsColumns (some (first, rest)) sh p = (λ fuel q. refl, refl)
  clause_lexemes-EndsColumns none (Shape.grouped_count g) p = (λ fuel q. refl, refl)
  clause_lexemes-EndsColumns none (Shape.grouped_sum g col) p = (λ fuel q. refl, refl)
  clause_lexemes-EndsColumns none _ p = (λ fuel q. refl, refl)

  -- The comparisons of a WHERE clause in front of the end of a statement.
  reads :
      (first : Condition) (rest : MoreConditions) (sh : Shape) (p : ℕ)
      → Readable literal lit first
      → AllReadable literal lit rest
      → parse_where lit (
          all_tokens (
            tokens_at spots p
              (condition_lexemes literal first ++ (more_lexemes literal rest ++ group_lexemes sh))))
        ≡ ok (
          build_filter
              (placed literal (spots p) first)
              (placed_all literal spots (pos_after_all p (condition_lexemes literal first)) rest),
          all_tokens (
              tokens_at spots
                (pos_after_all
                  (pos_after_all p (condition_lexemes literal first))
                  (more_lexemes literal rest))
                (group_lexemes sh)),
        )
  reads first rest sh p r rs =
      parse_where-tokens_at lit literal spots p first rest (group_lexemes sh) r rs
        (group_lexemes-EndsClause sh)

  -- The clauses behind a projection.
  parse_clauses-tokens_at :
      (cl : Option (Condition × MoreConditions)) (sh : Shape) (p : ℕ)
      → ReadableClause literal lit cl
      → NamedShape sh
      → parse_clauses lit
          (projected_query sh)
          (all_tokens (tokens_at spots p (clause_lexemes literal cl ++ group_lexemes sh)))
        ≡ ok (
          record (projected_query sh) {
            group_by = group_of sh;
            filter = filter_of literal spots p cl;
          },
          all_tokens (
              tokens_at spots
                (pos_after_all (pos_after_all p (clause_lexemes literal cl)) (group_lexemes sh))
                []),
        )
  unfolding parse_clauses peek parse_group_by validate_grouped advance clause_lexemes group_lexemes
      projected_query NamedShape group_of filter_of bytes_eq ReadableClause tokens_at pos_after_all
      kind_of text_of
  parse_clauses-tokens_at none (Shape.grouped_count g) p r name =
      rw (named g name, bytes_eq_refl g) refl
  parse_clauses-tokens_at none (Shape.grouped_sum g col) p r name =
      rw (named g name, bytes_eq_refl g) refl
  parse_clauses-tokens_at none _ p r name = refl
  parse_clauses-tokens_at (some (first, rest)) (Shape.grouped_count g) p (r, rs) name =
      rw
        (
          reads first rest (Shape.grouped_count g) (pos_after p (kw_lexeme kw_where)) r rs,
          named g name,
          bytes_eq_refl g,
        )
        refl
  parse_clauses-tokens_at (some (first, rest)) (Shape.grouped_sum g col) p (r, rs) name =
      rw
        (
          reads first rest (Shape.grouped_sum g col) (pos_after p (kw_lexeme kw_where)) r rs,
          named g name,
          bytes_eq_refl g,
        )
        refl
  parse_clauses-tokens_at (some (first, rest)) sh p (r, rs) name =
      rw (reads first rest sh (pos_after p (kw_lexeme kw_where)) r rs) refl

  abbrev end_of : Statement → ℕ
  end_of st =
      let start = pos_after_all (pos_after 0 (kw_lexeme kw_select)) (shape_lexemes st.shape) in
      pos_after_all (pos_after_all start (clause_lexemes literal st.clause))
        (group_lexemes st.shape)

  parse_query-tokens_at :
      (st : Statement)
      → ReadableClause literal lit st.clause
      → NamedShape st.shape
      → parse_query lit (all_tokens (tokens_at spots 0 (statement_lexemes literal st)))
        ≡ ok (query_of literal spots st, all_tokens (tokens_at spots (end_of st) []))
  unfolding parse_query statement_lexemes query_of advance bytes_eq tokens_at kind_of text_of
  parse_query-tokens_at st readable name =
      let start = pos_after 0 (kw_lexeme kw_select) in
      rw
        (parse_projection-tokens_at spots st.shape start
          (clause_lexemes literal st.clause ++ group_lexemes st.shape)
          (clause_lexemes-EndsColumns st.clause st.shape))
        (parse_clauses-tokens_at st.clause st.shape (pos_after_all start (shape_lexemes st.shape))
          readable name)

-- If the tokens that `lex` gives for an input are those of a statement of the grammar, at any
-- positions, then `Parse` gives the query that the statement means, each comparison with the
-- position of its column. The literals are assumed to be read back by `strconv`, and the group
-- column of a grouped projection to have a name.
pub parse-tokens_at :
    (lit : Literals) (literal : Value → Lexeme) (spots : ℕ → ℕ) (st : Statement) (input : Bytes)
    → lex input ≡ ok (all_tokens (tokens_at spots 0 (statement_lexemes literal st)))
    → ReadableClause literal lit st.clause
    → NamedShape st.shape
    → parse lit input ≡ ok (query_of literal spots st)
unfolding parse peek tokens_at
parse-tokens_at lit literal spots st input tokens readable name =
    rw (tokens, parse_query-tokens_at lit literal spots st readable name) refl

-- The group column is an identifier of the statement.
identifier-NamedShape : (g : Bytes) → Proper (Lexeme.identifier g) → 1 ≤ length g
unfolding Proper IsWord
identifier-NamedShape [] (w, other) = absurd w
identifier-NamedShape (c ∷ cs) p = omega arith

statement_lexemes-NamedShape :
    (sh : Shape) (k : List Lexeme)
    → All Proper (kw_lexeme kw_select ∷ shape_lexemes sh ++ k)
    → NamedShape sh
unfolding NamedShape shape_lexemes
statement_lexemes-NamedShape (Shape.grouped_count g) k (p, (q, ps)) = identifier-NamedShape g q
statement_lexemes-NamedShape (Shape.grouped_sum g col) k (p, (q, ps)) = identifier-NamedShape g q
statement_lexemes-NamedShape Shape.whole_rows k ps = tt
statement_lexemes-NamedShape Shape.row_count k ps = tt
statement_lexemes-NamedShape (Shape.some_columns c cs) k ps = tt
statement_lexemes-NamedShape (Shape.column_sum col) k ps = tt

-- Let a statement of the grammar (a projection, and perhaps a WHERE clause with comparisons joined
-- by AND and OR) be written with its keywords in upper case and a space behind each lexeme. Then
-- `Parse` gives the query that the statement means: its projection, its columns, the group column,
-- and the tree that `build_filter` makes of the comparisons, each with the position of its column
-- in the text. Column names are assumed to be words that are no keywords, and the literals to be
-- numbers or strings that `strconv` reads back.
pub parse-render :
    (lit : Literals) (literal : Value → Lexeme) (st : Statement)
    → All Proper (statement_lexemes literal st)
    → ReadableClause literal lit st.clause
    → parse lit (render (statement_lexemes literal st)) ≡ ok (query_of literal unmoved st)
unfolding statement_lexemes
parse-render lit literal st proper readable =
    parse-tokens_at lit literal unmoved st (render (statement_lexemes literal st))
      (lex-render (statement_lexemes literal st) proper) readable
      (statement_lexemes-NamedShape st.shape
        (clause_lexemes literal st.clause ++ group_lexemes st.shape) proper)

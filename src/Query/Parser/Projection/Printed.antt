-- ===== src/Query/Parser/Projection/Printed.antt =====
-- A projection is read back from its lexemes.
use uniqcol.Common.{
  Bytes, List, [], append-nil, append_assoc, arith, bytes_eq, false, length, ok, refl, suc, zero, ℕ,
  ◌++◌, ◌<◌, ◌∷◌, ◌≡◌, ◌≤◌,
}
use uniqcol.Query.{Query}
use uniqcol.Query.Lexer.{TokenKind}
use uniqcol.Query.Lexer.Lexemes.{
  Lexeme, all_tokens, identifier, kind_of, pos_after, pos_after_all, source, text_of, tokens_at,
}
use uniqcol.Query.Parser.State.{kind_is, peek, advance, expect_kind}
use uniqcol.Query.Parser.Projection.{
  column_list, count_argument, empty_query, grouped_projection, next_column, parse_column_list,
  parse_grouped_aggregate, parse_projection, sum_argument,
}
use uniqcol.Query.Parser.Printer.{Shape, column_lexemes, projected_query, shape_lexemes}

module _ (spots : ℕ → ℕ) where
  -- A list of columns ends before these lexemes, and a grouped projection may.
  abbrev pub EndsColumns : List Lexeme → Type 0
  EndsColumns k =
      (p : ℕ)
      → ((fuel : ℕ) (q : Query)
          → column_list (suc fuel) q (all_tokens (tokens_at spots p k))
            ≡ ok (q, all_tokens (tokens_at spots p k)))
        × (kind_is TokenKind.comma (tokens_at spots p k).0 ≡ false)

  column_list-tokens_at :
      (fuel p : ℕ) (q : Query) (cs : List Bytes) (k : List Lexeme)
      → length cs ≤ fuel
      → EndsColumns k
      → column_list (suc fuel) q (all_tokens (tokens_at spots p (column_lexemes cs ++ k)))
        ≡ ok (
          record q { columns = q.columns ++ cs },
          all_tokens (tokens_at spots (pos_after_all p (column_lexemes cs)) k),
        )
  unfolding column_list column_lexemes tokens_at pos_after_all peek advance next_column kind_of
      text_of source
  column_list-tokens_at fuel p q [] k enough ends = rw (append-nil q.columns) ((ends p).0 fuel q)
  column_list-tokens_at zero p q (c ∷ cs) k enough ends = absurd (omega (arith, enough))
  column_list-tokens_at (suc fuel) p q (c ∷ cs) k enough ends =
      rw
        (
          column_list-tokens_at fuel (pos_after (pos_after p Lexeme.a_comma) (identifier c))
              (record q { columns = q.columns ++ c ∷ [] }) cs k (omega (arith, enough)) ends,
          append_assoc q.columns (c ∷ []) cs,
        )
        refl

  length-column_lexemes :
      (p : ℕ) (cs : List Bytes) (k : List Lexeme)
      → length cs < length (all_tokens (tokens_at spots p (column_lexemes cs ++ k)))
  unfolding column_lexemes tokens_at
  length-column_lexemes p [] k = omega arith
  length-column_lexemes p (c ∷ cs) k =
      omega
        (arith, length-column_lexemes (pos_after (pos_after p Lexeme.a_comma) (identifier c)) cs k)

  pub parse_projection-tokens_at :
      (sh : Shape) (p : ℕ) (k : List Lexeme)
      → EndsColumns k
      → parse_projection empty_query (all_tokens (tokens_at spots p (shape_lexemes sh ++ k)))
        ≡ ok (
          projected_query sh,
          all_tokens (tokens_at spots (pos_after_all p (shape_lexemes sh)) k),
        )
  unfolding parse_projection shape_lexemes projected_query peek advance count_argument sum_argument
      expect_kind bytes_eq parse_column_list column_list grouped_projection parse_grouped_aggregate
      tokens_at pos_after_all kind_of text_of source
  parse_projection-tokens_at Shape.whole_rows p k ends = refl
  parse_projection-tokens_at Shape.row_count p k ends = refl
  parse_projection-tokens_at (Shape.some_columns c cs) p k ends =
      let start = pos_after p (identifier c) in
      column_list-tokens_at (length (tokens_at spots start (column_lexemes cs ++ k)).1) start
        (projected_query (Shape.some_columns c [])) cs k
        (omega (arith, length-column_lexemes start cs k)) ends
  parse_projection-tokens_at (Shape.column_sum col) p k ends = refl
  parse_projection-tokens_at (Shape.grouped_count g) p k ends = rw ((ends _).1) refl
  parse_projection-tokens_at (Shape.grouped_sum g col) p k ends = rw ((ends _).1) refl

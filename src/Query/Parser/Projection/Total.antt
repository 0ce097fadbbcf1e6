-- ===== src/Query/Parser/Projection/Total.antt =====
-- A projection is parsed to the end, or to an error.
use uniqcol.Common.{
  >>=-Delivers, Bool-cases, Bytes, Delivers, Delivers-imp, arith, bytes_eq, fail_if-Delivers, fails,
  gives, inl, inr, length, not, not_==-false, refl, suc, zero, ℕ, ◌==◌, ◌||◌, ◌≡◌,
}
use uniqcol.Query.Parser.Steps.{
  Left, peek-Delivers, advance-Left, advance_shorter, expect_kind-Left, Left-zero, comma_other,
  Left-suc,
}
use uniqcol.Query.Parser.Projection.{
  count_argument, sum_argument, parse_grouped_aggregate, grouped_projection, next_column,
  column_list, empty_query, parse_projection, parse_column_list,
}
use uniqcol.Query.{Query, ProjectionKind}
use uniqcol.Query.Lexer.{TokenKind, Token, kw_count, kw_sum}
use uniqcol.Query.Parser.State.{Tokens, kind_is, is_kw}

-- A grouped projection has one column.
abbrev pub Shaped : Query → Type 0
Shaped q = q.projection ≡ ProjectionKind.grouped → length q.columns ≡ 1

abbrev pub Parsed : ℕ → Query × Tokens → Type 0
Parsed n p = Shaped p.0 × Left n p.1

Parsed-suc : (n : ℕ) (p : Query × Tokens) → Parsed n p → Parsed (suc n) p
Parsed-suc n (q, toks) (shape, h) = (shape, Left-suc n toks h)

-- A list of columns, without an aggregate so far.
abbrev Listed : ℕ → Query × Tokens → Type 0
Listed n p = (p.0.projection ≡ ProjectionKind.columns) × Left n p.1

count_argument-Left :
    (n : ℕ) (toks : Tokens) → Left n toks → Delivers (Left n) (count_argument toks)
unfolding count_argument
count_argument-Left n toks h =
    >>=-Delivers _ _ (expect_kind-Left n TokenKind.lparen toks h) (λ toks₁ h₁.
      >>=-Delivers _ _ (advance-Left n toks₁ h₁) (λ (next, toks₂) h₂.
        fail_if-Delivers (not (kind_is TokenKind.star next)) _ _
          (λ a. expect_kind-Left n TokenKind.rparen toks₂ h₂)))

sum_argument-Left :
    (n : ℕ) (toks : Tokens)
    → Left n toks
    → Delivers (λ (p : Bytes × Tokens). Left n p.1) (sum_argument toks)
unfolding sum_argument
sum_argument-Left n toks h =
    >>=-Delivers _ _ (expect_kind-Left n TokenKind.lparen toks h) (λ toks₁ h₁.
      >>=-Delivers _ _ (advance-Left n toks₁ h₁) (λ (next, toks₂) h₂.
        fail_if-Delivers (not (kind_is TokenKind.ident next)) _ _ (λ a.
          >>=-Delivers _ _ (expect_kind-Left n TokenKind.rparen toks₂ h₂) (λ toks₃ h₃. gives h₃))))

parse_grouped_aggregate-Parsed :
    (n : ℕ) (q : Query) (toks : Tokens)
    → length q.columns ≡ 1
    → Left n toks
    → Delivers (Parsed n) (parse_grouped_aggregate q toks)
unfolding parse_grouped_aggregate
parse_grouped_aggregate-Parsed n q toks one h =
    >>=-Delivers _ _ (advance-Left n toks h) (λ (agg, toks₁) h₁.
      elim (Bool-cases (bytes_eq agg.text kw_count)) [
        | inl yes_count ↦ rw yes_count (
            >>=-Delivers _ _ (count_argument-Left n toks₁ h₁) (λ toks₂ h₂. gives (λ same. one, h₂)))
        | inr no_count ↦ rw no_count (
            >>=-Delivers _ _ (sum_argument-Left n toks₁ h₁)
              (λ (col, toks₂) h₂. gives (λ same. one, h₂)))
      ])

grouped_projection-Parsed :
    (n : ℕ) (q : Query) (t : Token) (toks : Tokens)
    → Left n toks
    → Delivers (Parsed n) (grouped_projection q t toks)
unfolding grouped_projection
grouped_projection-Parsed n q t toks h = fail_if-Delivers (not (length q.columns == 1)) _ _ (λ a.
    >>=-Delivers _ _ (parse_grouped_aggregate-Parsed n q toks (not_==-false _ _ a) h)
      (λ (q₁, toks₁) (shape, h₁).
        >>=-Delivers _ _ (peek-Delivers n toks₁ h₁) (λ next at.
          fail_if-Delivers (kind_is TokenKind.comma next) _ _ (λ b. gives (shape, h₁)))))

next_column-Listed :
    (n : ℕ) (q : Query) (toks : Tokens)
    → Listed n (q, toks)
    → Delivers (Listed n) (next_column q toks)
unfolding next_column
next_column-Listed n q toks (plain, h) = >>=-Delivers _ _ (advance-Left n toks h) (λ (t, toks₁) h₁.
    fail_if-Delivers (kind_is TokenKind.star t) _ _
      (λ a. fail_if-Delivers (not (kind_is TokenKind.ident t)) _ _ (λ b. gives (plain, h₁))))

column_list-Parsed :
    (n : ℕ) (q : Query) (toks : Tokens)
    → Listed n (q, toks)
    → Delivers (Parsed n) (column_list n q toks)
unfolding column_list
column_list-Parsed zero q toks (plain, h) = absurd (Left-zero toks h)
column_list-Parsed (suc n) q toks (plain, h) =
    >>=-Delivers _ _ (peek-Delivers (suc n) toks h) (λ t at.
      elim (Bool-cases (kind_is TokenKind.comma t)) [
        | inr done ↦ rw done (gives (λ same. cc, h))
        | inl more ↦ rw more (
            >>=-Delivers _ _ (advance_shorter n toks t h at (comma_other t more)) (λ (c, toks₁) h₁.
              >>=-Delivers _ _ (peek-Delivers n toks₁ h₁) (λ next at₁.
                elim (Bool-cases (is_kw kw_count next || is_kw kw_sum next)) [
                  | inl a ↦
                      rw a
                        (Delivers-imp (grouped_projection-Parsed n q next toks₁ h₁) (Parsed-suc n))
                  | inr b ↦ rw b (
                      >>=-Delivers _ _ (next_column-Listed n q toks₁ (plain, h₁))
                        (λ (q₁, toks₂) listed.
                          Delivers-imp (column_list-Parsed n q₁ toks₂ listed) (Parsed-suc n)))
                ])))
      ])

-- A projection, from the empty query on.
pub parse_projection-Parsed :
    (n : ℕ) (toks : Tokens) → Left n toks → Delivers (Parsed n) (parse_projection empty_query toks)
unfolding parse_projection parse_column_list
parse_projection-Parsed n toks h = >>=-Delivers _ _ (peek-Delivers n toks h) (λ t at.
    elim (Bool-cases (kind_is TokenKind.star t)) [
      | inl a ↦
          rw a (>>=-Delivers _ _ (advance-Left n toks h) (λ (c, toks₁) h₁. gives (λ same. cc, h₁)))
      | inr a ↦ rw a (elim (Bool-cases (is_kw kw_count t)) [
        | inl b ↦ rw b (
            >>=-Delivers _ _ (advance-Left n toks h) (λ (c, toks₁) h₁.
              >>=-Delivers _ _ (count_argument-Left n toks₁ h₁)
                (λ toks₂ h₂. gives (λ same. cc, h₂))))
        | inr b ↦ rw b (elim (Bool-cases (is_kw kw_sum t)) [
          | inl c ↦ rw c (
              >>=-Delivers _ _ (advance-Left n toks h) (λ (d, toks₁) h₁.
                >>=-Delivers _ _ (sum_argument-Left n toks₁ h₁)
                  (λ (col, toks₂) h₂. gives (λ same. cc, h₂))))
          | inr c ↦ rw c (elim (Bool-cases (kind_is TokenKind.ident t)) [
            | inr d ↦ rw d fails
            | inl d ↦ rw d (
                >>=-Delivers _ _ (advance-Left n toks h) (λ (first, toks₁) (h₁, less).
                  Delivers-imp (column_list-Parsed (length toks₁) _ toks₁ (refl, (h₁, omega arith)))
                    (λ (q, toks₂) (shape, (h₂, less')). (shape, (h₂, omega arith)))))
          ])
        ])
      ])
    ])

-- ===== src/Query/Parser/Where/Total.antt =====
-- The WHERE clause is parsed to the end, or to an error.
use uniqcol.Common.{
  >>=-Delivers, Bool-cases, Bytes, Delivers, Option-cases, arith, fail_if-Delivers, fails, false,
  gives, inl, inr, length, not, some, suc, zero, ℕ, ◌≡◌,
}
use uniqcol.Query.Parser.Steps.{
  Left, Anything, peek-Delivers, advance-Left, advance_shorter, or_fail-Anything, Left-zero,
  Left-suc, keyword_other,
}
use uniqcol.Query.{FilterExpr, Comparison}
use uniqcol.Query.Parser.Where.{Connective, literal_of, parse_op}
use uniqcol.Storage.Types.{Value}
use uniqcol.Query.Lexer.{TokenKind, Token, kw_and, kw_or}
use uniqcol.Query.Parser.State.{Tokens, kind_is, is_kw}
use uniqcol.Query.Parser.Where.{
  Literals, Conditions, connective, parse_comparison, parse_conditions, parse_where, literal_value,
}

literal_of-Delivers :
    (lit : Literals) (pos : ℕ) (text : Bytes) (kind : TokenKind)
    → Delivers (Anything {A = Value}) (literal_of lit pos text kind)
unfolding literal_of
literal_of-Delivers lit pos text TokenKind.int =
    >>=-Delivers _ _ (or_fail-Anything (lit.parse_int text) _) (λ v u. gives tt)
literal_of-Delivers lit pos text TokenKind.float =
    >>=-Delivers _ _ (or_fail-Anything (lit.parse_float text) _) (λ v u. gives tt)
literal_of-Delivers lit pos text TokenKind.string = gives tt
literal_of-Delivers lit pos text _ = fails

parse_comparison-Left :
    (lit : Literals) (n : ℕ) (toks : Tokens)
    → Left n toks
    → Delivers (λ (p : Comparison × Tokens). Left n p.1) (parse_comparison lit toks)
unfolding parse_comparison literal_value
parse_comparison-Left lit n toks h = >>=-Delivers _ _ (advance-Left n toks h) (λ (col, toks₁) h₁.
    fail_if-Delivers (kind_is TokenKind.lparen col) _ _ (λ a.
      fail_if-Delivers (not (kind_is TokenKind.ident col)) _ _ (λ b.
        >>=-Delivers _ _ (advance-Left n toks₁ h₁) (λ (o, toks₂) h₂.
          fail_if-Delivers (kind_is TokenKind.ident o) _ _ (λ c.
            fail_if-Delivers (not (kind_is TokenKind.op o)) _ _ (λ d.
              >>=-Delivers _ _ (or_fail-Anything (parse_op o.text) _) (λ op u.
                >>=-Delivers _ _ (advance-Left n toks₂ h₂) (λ (l, toks₃) h₃.
                  >>=-Delivers _ _ (literal_of-Delivers lit l.pos l.text l.kind)
                    (λ v w. gives h₃)))))))))

connective_other :
    (t : Token) (o : Connective) → connective t ≡ some o → kind_is TokenKind.eof t ≡ false
unfolding connective
connective_other t o h = elim (Bool-cases (is_kw kw_and t)) [
  | inl yes_and ↦ keyword_other kw_and t yes_and
  | inr no_and ↦ elim (Bool-cases (is_kw kw_or t)) [
    | inl yes_or ↦ keyword_other kw_or t yes_or
    | inr no_or ↦ cc (rw (no_and, no_or) at h)
  ]
]

parse_conditions-Left :
    (lit : Literals) (n : ℕ) (toks : Tokens)
    → Left n toks
    → Delivers (λ (p : Conditions × Tokens). Left n p.1) (parse_conditions lit n toks)
unfolding parse_conditions
parse_conditions-Left lit zero toks h = absurd (Left-zero toks h)
parse_conditions-Left lit (suc n) toks h = >>=-Delivers _ _ (peek-Delivers (suc n) toks h) (λ t at.
    elim (Option-cases (connective t)) [
      | inl no_more ↦ rw no_more (fail_if-Delivers (kind_is TokenKind.ident t) _ _ (λ b. gives h))
      | inr (o, more) ↦ rw more (
          >>=-Delivers _ _ (advance_shorter n toks t h at (connective_other t o more))
            (λ (c, toks₁) h₁.
              >>=-Delivers _ _ (parse_comparison-Left lit n toks₁ h₁) (λ (next, toks₂) h₂.
                >>=-Delivers _ _ (parse_conditions-Left lit n toks₂ h₂)
                  (λ (rest, toks₃) h₃. gives (Left-suc n toks₃ h₃)))))
    ])

pub parse_where-Left :
    (lit : Literals) (n : ℕ) (toks : Tokens)
    → Left n toks
    → Delivers (λ (p : FilterExpr × Tokens). Left n p.1) (parse_where lit toks)
unfolding parse_where
parse_where-Left lit n toks h =
    >>=-Delivers _ _ (parse_comparison-Left lit n toks h) (λ (first, toks₁) (h₁, less).
      >>=-Delivers _ _ (parse_conditions-Left lit (length toks₁) toks₁ (h₁, omega arith))
        (λ (rest, toks₂) (h₂, less'). gives (h₂, omega arith)))

-- ===== src/Query/Parser/State.antt =====
-- The state of the parser: `toks[i:]`, the tokens from the current one on. The index is always in
-- range, and the methods panic where it is not.
use uniqcol.Common.{
  Bool, Bytes, List, Result, [], bytes_eq, fail_if, not, ok, panic, ℕ, ◌&&◌, ◌==◌, ◌>>=◌, ◌>>◌, ◌∷◌,
}
use uniqcol.Query.Lexer.{
  TokenKind, Token, ParseError, problem_at, expected_token, eof, ident, keyword, int, float, string,
  op, comma, lparen, rparen, star,
}

abbrev pub Tokens : Type 0
Tokens = List Token

unfoldable pub peek : Tokens → Result ParseError Token
peek [] = panic
peek (t ∷ toks) = ok t

-- The index stays at the last token.
unfoldable pub advance : Tokens → Result ParseError (Token × Tokens)
advance [] = panic
advance (t ∷ []) = ok (t, t ∷ [])
advance (t ∷ u ∷ toks) = ok (t, u ∷ toks)

-- The number of a kind, by which kinds are compared.
abbrev kind_code : TokenKind → ℕ
kind_code eof = 0
kind_code ident = 1
kind_code keyword = 2
kind_code int = 3
kind_code float = 4
kind_code string = 5
kind_code op = 6
kind_code comma = 7
kind_code lparen = 8
kind_code rparen = 9
kind_code star = 10

abbrev pub kind_is : TokenKind → Token → Bool
kind_is k t = kind_code t.kind == kind_code k

-- `t.kind == tkKeyword && t.text == word`
abbrev pub is_kw : Bytes → Token → Bool
is_kw word t = kind_is keyword t && bytes_eq t.text word

unfoldable pub expect_kind : TokenKind → Tokens → Result ParseError Tokens
unfolding advance
expect_kind k toks = do
  (t, rest) ← advance toks
  fail_if (not (kind_is k t)) (problem_at t.pos expected_token)
  ok rest

-- ===== src/Query/Lexer/Lexemes.antt =====
-- The lexemes of query/parser.go, as they are written and as `lex` reads them.
use uniqcol.Common.{
  All, Bool, Bytes, List, [], false, if◌then◌else◌, length, map, not, true, ℕ, ◌++◌, ◌+◌, ◌==◌, ◌∷◌,
  ◌≡◌,
}
use uniqcol.Query.{FilterOp}
use uniqcol.Query.Lexer.{
  Token, TokenKind, is_digit, is_ident_part, is_ident_start, is_keyword, keywords, to_upper,
}

pub data Lexeme : Type 0 where
  a_comma a_lparen a_rparen a_star : Lexeme
  operator : FilterOp → Lexeme
  -- A keyword, and how it is written; an identifier.
  reserved : Bytes → Bytes → Lexeme
  identifier : Bytes → Lexeme
  -- With a minus sign or without one.
  number : Bool → ℕ → Bytes → Lexeme
  decimal : Bool → ℕ → Bytes → Bytes → Lexeme
  quoted : Bytes → Lexeme

unfoldable pub op_text : FilterOp → Bytes
op_text FilterOp.eq = b'=' ∷ []
op_text FilterOp.neq = b'!' ∷ b'=' ∷ []
op_text FilterOp.lt = b'<' ∷ []
op_text FilterOp.gt = b'>' ∷ []
op_text FilterOp.lte = b'<' ∷ b'=' ∷ []
op_text FilterOp.gte = b'>' ∷ b'=' ∷ []

abbrev pub signed : Bool → Bytes → Bytes
signed negative text = if negative then b'-' ∷ text else text

unfoldable pub source : Lexeme → Bytes
unfolding op_text
source a_comma = b',' ∷ []
source a_lparen = b'(' ∷ []
source a_rparen = b')' ∷ []
source a_star = b'*' ∷ []
source (operator o) = op_text o
source (reserved k text) = text
source (identifier text) = text
source (number negative d ds) = signed negative (d ∷ ds)
source (decimal negative d ds fraction) = signed negative (d ∷ ds ++ b'.' ∷ fraction)
source (quoted text) = b'\'' ∷ text ++ b'\'' ∷ []

unfoldable pub kind_of : Lexeme → TokenKind
kind_of a_comma = TokenKind.comma
kind_of a_lparen = TokenKind.lparen
kind_of a_rparen = TokenKind.rparen
kind_of a_star = TokenKind.star
kind_of (operator o) = TokenKind.op
kind_of (reserved k text) = TokenKind.keyword
kind_of (identifier text) = TokenKind.ident
kind_of (number negative d ds) = TokenKind.int
kind_of (decimal negative d ds fraction) = TokenKind.float
kind_of (quoted text) = TokenKind.string

-- A keyword is read as itself, whatever its case, and a string without its quotes.
unfoldable pub text_of : Lexeme → Bytes
unfolding source
text_of (reserved k text) = k
text_of (quoted text) = text
text_of l = source l

abbrev Passes : (ℕ → Bool) → ℕ → Type 0
Passes test c = test c ≡ true

abbrev pub AllPass : (ℕ → Bool) → Bytes → Type 0
AllPass test = All (Passes test)

-- The text of an identifier or a keyword.
unfoldable pub IsWord : Bytes → Type 0
IsWord [] = ⊥
IsWord (c ∷ cs) = (is_ident_start c ≡ true) × AllPass is_ident_part cs

unfoldable pub Proper : Lexeme → Type 0
unfolding IsWord is_keyword
Proper (reserved k text) = IsWord text × (map to_upper text ≡ k) × (is_keyword keywords k ≡ true)
Proper (identifier text) = IsWord text × (is_keyword keywords (map to_upper text) ≡ false)
Proper (number negative d ds) = (is_digit d ≡ true) × AllPass is_digit ds
Proper (decimal negative d ds fraction) =
    (is_digit d ≡ true) × AllPass is_digit ds × AllPass is_digit fraction
Proper (quoted text) = AllPass (λ c. not (c == b'\'')) text
Proper _ = Unit

-- A space behind each lexeme.
unfoldable pub render : List Lexeme → Bytes
render [] = []
render (l ∷ ls) = source l ++ b' ' ∷ render ls

-- The position behind a lexeme and the space, and behind several.
abbrev pub pos_after : ℕ → Lexeme → ℕ
pos_after p l = p + length (source l) + 1

unfoldable pub pos_after_all : ℕ → List Lexeme → ℕ
unfolding source
pos_after_all p [] = p
pos_after_all p (l ∷ ls) = pos_after_all (pos_after p l) ls

-- A list of tokens that is not empty.
abbrev pub Tail : Type 0
Tail = Token × List Token

abbrev pub all_tokens : Tail → List Token
all_tokens k = k.0 ∷ k.1

-- The tokens of lexemes, the first of which begins at `p` if one space is behind each lexeme. `spots`
-- moves these positions to where the tokens are.
unfoldable pub tokens_at : (ℕ → ℕ) → ℕ → List Lexeme → Tail
unfolding kind_of text_of source
tokens_at spots p [] = (record { kind = TokenKind.eof; text = []; pos = spots p }, [])
tokens_at spots p (l ∷ ls) = (
  record { kind = kind_of l; text = text_of l; pos = spots p },
  all_tokens (tokens_at spots (pos_after p l) ls),
)

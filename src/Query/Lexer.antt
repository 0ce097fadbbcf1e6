-- ===== src/Query/Lexer.antt =====
-- `lex` of query/parser.go. The index `i` is the length of the input less that of what is left of it.
pub mod Total
pub mod Lexemes
pub mod Rounds
pub mod RoundTrip
use uniqcol.Common.{
  Bool, Bytes, List, Option, Result, [], bytes_eq, err, false, if◌then◌else◌, leb, length, map,
  none, not, ok, some, stuck, suc, zero, ℕ, ◌&&◌, ◌++◌, ◌-◌, ◌==◌, ◌>>=◌, ◌||◌, ◌∷◌,
}

pub data TokenKind : Type 0 where
  eof ident keyword int float string op comma lparen rparen star : TokenKind

pub record Token : Type 0 where
  pub kind : TokenKind
  pub text : Bytes
  pub pos : ℕ

-- What is wrong at a position.
pub data Problem : Type 0 where
  stray_bang unterminated_string unexpected_character : Problem
  trailing_token expected_select from_clause having_clause : Problem
  expected_token expected_star expected_column : Problem
  expected_by several_group_columns grouped_shape star_in_columns expected_projection : Problem
  missing_connective parentheses expected_operator unknown_operator : Problem
  bad_integer bad_float expected_literal : Problem

-- The errors of the cross-clause checks have no position.
pub data ParseError : Type 0 where
  problem_at : ℕ → Problem → ParseError
  group_by_missing group_by_mismatch group_by_no_aggregate group_by_not_projected : ParseError

unfoldable pub is_digit : ℕ → Bool
is_digit c = leb b'0' c && leb c b'9'

unfoldable pub is_ident_start : ℕ → Bool
is_ident_start c = c == b'_' || leb b'A' c && leb c b'Z' || leb b'a' c && leb c b'z'

unfoldable pub is_ident_part : ℕ → Bool
unfolding is_ident_start is_digit
is_ident_part c = is_ident_start c || is_digit c

-- `unicode.IsSpace` below 256.
unfoldable pub is_space : ℕ → Bool
is_space c = leb 9 c && leb c 13 || c == b' ' || c == 0x85 || c == 0xa0

-- The loops that move an index while a test holds: what they pass, and what is left.
unfoldable pub span : (ℕ → Bool) → Bytes → Bytes × Bytes
span test [] = ([], [])
span test (c ∷ cs) =
    let more = span test cs in if test c then (c ∷ more.0, more.1) else ([], c ∷ cs)

-- `strings.ToUpper` on the letters of identifiers.
abbrev pub to_upper : ℕ → ℕ
to_upper c = if leb b'a' c && leb c b'z' then c - 32 else c

abbrev pub kw_select : Bytes
kw_select = b'S' ∷ b'E' ∷ b'L' ∷ b'E' ∷ b'C' ∷ b'T' ∷ []

abbrev pub kw_where : Bytes
kw_where = b'W' ∷ b'H' ∷ b'E' ∷ b'R' ∷ b'E' ∷ []

abbrev pub kw_count : Bytes
kw_count = b'C' ∷ b'O' ∷ b'U' ∷ b'N' ∷ b'T' ∷ []

abbrev pub kw_sum : Bytes
kw_sum = b'S' ∷ b'U' ∷ b'M' ∷ []

abbrev pub kw_and : Bytes
kw_and = b'A' ∷ b'N' ∷ b'D' ∷ []

abbrev pub kw_or : Bytes
kw_or = b'O' ∷ b'R' ∷ []

abbrev pub kw_group : Bytes
kw_group = b'G' ∷ b'R' ∷ b'O' ∷ b'U' ∷ b'P' ∷ []

abbrev pub kw_by : Bytes
kw_by = b'B' ∷ b'Y' ∷ []

abbrev pub kw_having : Bytes
kw_having = b'H' ∷ b'A' ∷ b'V' ∷ b'I' ∷ b'N' ∷ b'G' ∷ []

abbrev pub kw_from : Bytes
kw_from = b'F' ∷ b'R' ∷ b'O' ∷ b'M' ∷ []

abbrev pub keywords : List Bytes
keywords =
    kw_select ∷ kw_where ∷ kw_count ∷ kw_sum ∷ kw_and ∷ kw_or ∷ kw_group ∷ kw_by ∷ kw_having
    ∷ kw_from ∷ []

unfoldable pub is_keyword : List Bytes → Bytes → Bool
unfolding bytes_eq
is_keyword [] text = false
is_keyword (k ∷ ks) text = bytes_eq k text || is_keyword ks text

-- A round of the loop: the token, if the round gives one, and what is left of the input.
abbrev pub Round : Type 0
Round = Result ParseError (Option Token × Bytes)

abbrev pub token : TokenKind → Bytes → ℕ → Bytes → Round
token kind text pos rest = ok (some (record { kind = kind; text = text; pos = pos }), rest)

-- Behind a `!`, a `<` or a `>`.
unfoldable pub lex_bang : ℕ → Bytes → Round
lex_bang pos [] = err (problem_at pos stray_bang)
lex_bang pos (c ∷ cs) =
    if c == b'=' then token op (b'!' ∷ b'=' ∷ []) pos cs else err (problem_at pos stray_bang)

unfoldable pub lex_angle : ℕ → ℕ → Bytes → Round
lex_angle pos a [] = token op (a ∷ []) pos []
lex_angle pos a (c ∷ cs) =
    if c == b'=' then token op (a ∷ b'=' ∷ []) pos cs else token op (a ∷ []) pos (c ∷ cs)

-- Behind the opening quote.
unfoldable pub close_string : ℕ → Bytes → Bytes → Round
close_string pos text [] = err (problem_at pos unterminated_string)
close_string pos text (quote ∷ cs) = token string text pos cs

unfoldable pub lex_string : ℕ → Bytes → Round
unfolding span close_string
lex_string pos cs = let (text, rest) = span (λ c. not (c == b'\'')) cs in close_string pos text rest

-- Behind the digits of the integral part.
unfoldable pub lex_fraction : ℕ → Bytes → Bytes → Round
unfolding span is_digit
lex_fraction pos text [] = token int text pos []
lex_fraction pos text (c ∷ cs) =
    if c == b'.'
    then (let (digits, rest) = span is_digit cs in token float (text ++ c ∷ digits) pos rest)
    else token int text pos (c ∷ cs)

-- Behind the first character, a digit or a minus sign.
unfoldable pub lex_number : ℕ → ℕ → Bytes → Round
unfolding span is_digit lex_fraction
lex_number pos c cs = let (digits, rest) = span is_digit cs in lex_fraction pos (c ∷ digits) rest

-- Behind the first letter.
unfoldable pub lex_word : ℕ → ℕ → Bytes → Round
unfolding span is_ident_part is_keyword
lex_word pos c cs =
    let (tail, rest) = span is_ident_part cs in
    let upper = map to_upper (c ∷ tail) in
    if is_keyword keywords upper
    then token keyword upper pos rest
    else token ident (c ∷ tail) pos rest

-- `i+1 < len(input) && isDigit(input[i+1])`
unfoldable pub digit_next : Bytes → Bool
unfolding is_digit
digit_next [] = false
digit_next (c ∷ cs) = is_digit c

unfoldable pub lex_round : ℕ → ℕ → Bytes → Round
unfolding is_space lex_bang lex_angle lex_string lex_number lex_word digit_next is_digit
    is_ident_start
lex_round pos c cs =
    if is_space c
    then ok (none, cs)
    else if c == b','
    then token comma (c ∷ []) pos cs
    else if c == b'('
    then token lparen (c ∷ []) pos cs
    else if c == b')'
    then token rparen (c ∷ []) pos cs
    else if c == b'*'
    then token star (c ∷ []) pos cs
    else if c == b'='
    then token op (c ∷ []) pos cs
    else if c == b'!'
    then lex_bang pos cs
    else if c == b'<' || c == b'>'
    then lex_angle pos c cs
    else if c == b'\''
    then lex_string pos cs
    else if is_digit c || c == b'-' && digit_next cs
    then lex_number pos c cs
    else if is_ident_start c
    then lex_word pos c cs
    else err (problem_at pos unexpected_character)

abbrev pub append_token : Option Token → List Token → List Token
append_token none more = more
append_token (some t) more = t ∷ more

-- The loop, with one unit of fuel a round; `total` is `len(input)`.
unfoldable pub lex_loop : ℕ → ℕ → Bytes → Result ParseError (List Token)
unfolding lex_round
lex_loop total fuel [] = ok (record { kind = eof; text = []; pos = total } ∷ [])
lex_loop total zero (c ∷ cs) = stuck
lex_loop total (suc fuel) (c ∷ cs) = do
  (t, rest) ← lex_round (total - length (c ∷ cs)) c cs
  more ← lex_loop total fuel rest
  ok (append_token t more)

-- A round takes a byte at least.
unfoldable pub lex : Bytes → Result ParseError (List Token)
unfolding lex_loop
lex input = lex_loop (length input) (length input) input

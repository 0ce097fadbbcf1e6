-- ===== src/Query/Lexer/Rounds.antt =====
-- A round of `lex` reads one lexeme.
use uniqcol.Common.{
  Bool, Bytes, [], ap, append_assoc, arith, false, if◌then◌else◌, map, not, ok, refl, some, stuck,
  true, ℕ, ◌++◌, ◌==◌, ◌∙◌, ◌∷◌, ◌≡◌,
}
use uniqcol.Query.{FilterOp}
use uniqcol.Query.Lexer.{
  TokenKind, int, float, string, Round, Token, digit_next, is_digit, is_ident_part, is_ident_start,
  is_keyword, is_space, keywords, lex_fraction, lex_number, lex_round, lex_string, lex_word, span,
  to_upper, close_string, lex_angle, lex_bang,
}
use uniqcol.Query.Lexer.Lexemes.{
  reserved, identifier, IsWord, number, decimal, quoted, operator, AllPass, Lexeme, Proper, kind_of,
  op_text, source, text_of,
}

-- The bytes that pass a test, up to one that does not.
span_lem :
    (test : ℕ → Bool) (cs : Bytes) (d : ℕ) (rest : Bytes)
    → AllPass test cs
    → test d ≡ false
    → span test (cs ++ d ∷ rest) ≡ (cs, d ∷ rest)
unfolding span
span_lem test [] d rest passes stops = rw stops refl
span_lem test (c ∷ cs) d rest (p, ps) stops = rw (span_lem test cs d rest ps stops, p) refl

-- A round at the start of an input that is not empty.
unfoldable pub round_at : ℕ → Bytes → Round
unfolding lex_round
round_at pos [] = stuck
round_at pos (c ∷ cs) = lex_round pos c cs

abbrev pub token_of : Lexeme → ℕ → Token
token_of l pos = record { kind = kind_of l; text = text_of l; pos = pos }

word_round :
    (c pos : ℕ) (rest : Bytes)
    → is_ident_start c ≡ true
    → lex_round pos c rest ≡ lex_word pos c rest
unfolding lex_round is_space is_digit is_ident_start
word_round c pos rest h = ground arith

word_lem :
    (c : ℕ) (cs : Bytes) (pos : ℕ) (rest : Bytes) (b : Bool)
    → IsWord (c ∷ cs)
    → is_keyword keywords (map to_upper (c ∷ cs)) ≡ b
    → lex_round pos c (cs ++ b' ' ∷ rest) ≡ (
        if b
        then ok (
          some (record { kind = TokenKind.keyword; text = map to_upper (c ∷ cs); pos = pos }),
          b' ' ∷ rest,
        )
        else ok (some (record { kind = TokenKind.ident; text = c ∷ cs; pos = pos }), b' ' ∷ rest))
unfolding lex_word IsWord
word_lem c cs pos rest true (start, parts) h =
    word_round c pos (cs ++ b' ' ∷ rest) start
    ∙ rw (span_lem is_ident_part cs b' ' rest parts refl, h) refl
word_lem c cs pos rest false (start, parts) h =
    word_round c pos (cs ++ b' ' ∷ rest) start
    ∙ rw (span_lem is_ident_part cs b' ' rest parts refl, h) refl

digit_round :
    (c pos : ℕ) (rest : Bytes) → is_digit c ≡ true → lex_round pos c rest ≡ lex_number pos c rest
unfolding lex_round is_space is_digit is_ident_start
digit_round c pos rest h = ground arith

-- The sign is the first character of a number that has one.
sign_round :
    (d pos : ℕ) (rest : Bytes)
    → is_digit d ≡ true
    → lex_round pos b'-' (d ∷ rest) ≡ lex_number pos b'-' (d ∷ rest)
unfolding lex_round digit_next
sign_round d pos rest h = rw h refl

-- A number, with what it starts with.
whole_number :
    (c : ℕ) (ds : Bytes) (pos : ℕ) (rest : Bytes)
    → AllPass is_digit ds
    → lex_number pos c (ds ++ b' ' ∷ rest)
      ≡ ok (some (record { kind = int; text = c ∷ ds; pos = pos }), b' ' ∷ rest)
unfolding lex_number lex_fraction is_digit
whole_number c ds pos rest h = rw (span_lem is_digit ds b' ' rest h refl) refl

fraction_number :
    (c : ℕ) (ds fraction : Bytes) (pos : ℕ) (rest : Bytes)
    → AllPass is_digit ds
    → AllPass is_digit fraction
    → lex_number pos c (ds ++ b'.' ∷ (fraction ++ b' ' ∷ rest))
      ≡ ok
          (some (record { kind = float; text = c ∷ ds ++ b'.' ∷ fraction; pos = pos }), b' ' ∷ rest)
unfolding lex_number lex_fraction is_digit
fraction_number c ds fraction pos rest h k =
    rw
      (
        span_lem is_digit ds b'.' (fraction ++ b' ' ∷ rest) h refl,
        span_lem is_digit fraction b' ' rest k refl,
      )
      refl

string_round :
    (text : Bytes) (pos : ℕ) (rest : Bytes)
    → AllPass (λ c. not (c == b'\'')) text
    → lex_round pos b'\'' (text ++ b'\'' ∷ rest)
      ≡ ok (some (record { kind = string; text = text; pos = pos }), rest)
unfolding lex_round lex_string close_string
string_round text pos rest h = rw (span_lem (λ c. not (c == b'\'')) text b'\'' rest h refl) refl

-- A round reads a lexeme that a space follows, up to the space.
pub round_at-source :
    (l : Lexeme) (pos : ℕ) (rest : Bytes)
    → Proper l
    → round_at pos (source l ++ b' ' ∷ rest) ≡ ok (some (token_of l pos), b' ' ∷ rest)
unfolding round_at source op_text kind_of text_of Proper IsWord lex_bang lex_angle
round_at-source (operator FilterOp.eq) pos rest p = refl
round_at-source (operator FilterOp.neq) pos rest p = refl
round_at-source (operator FilterOp.lt) pos rest p = refl
round_at-source (operator FilterOp.gt) pos rest p = refl
round_at-source (operator FilterOp.lte) pos rest p = refl
round_at-source (operator FilterOp.gte) pos rest p = refl
round_at-source (reserved k []) pos rest (w, upper, known) = absurd w
round_at-source (reserved k (c ∷ cs)) pos rest (w, upper, known) =
    word_lem c cs pos rest true w (ap (is_keyword keywords) upper ∙ known)
    ∙ ap (λ t. ok (some (record { kind = TokenKind.keyword; text = t; pos = pos }), b' ' ∷ rest))
        upper
round_at-source (identifier []) pos rest (w, other) = absurd w
round_at-source (identifier (c ∷ cs)) pos rest (w, other) = word_lem c cs pos rest false w other
round_at-source (number false d ds) pos rest (p, ps) =
    digit_round d pos (ds ++ b' ' ∷ rest) p ∙ whole_number d ds pos rest ps
round_at-source (number true d ds) pos rest (p, ps) =
    sign_round d pos (ds ++ b' ' ∷ rest) p ∙ whole_number b'-' (d ∷ ds) pos rest (p, ps)
round_at-source (decimal false d ds fraction) pos rest (p, ps, qs) =
    rw (append_assoc ds (b'.' ∷ fraction) (b' ' ∷ rest))
      (digit_round d pos _ p ∙ fraction_number d ds fraction pos rest ps qs)
round_at-source (decimal true d ds fraction) pos rest (p, ps, qs) =
    rw (append_assoc ds (b'.' ∷ fraction) (b' ' ∷ rest)) (
      sign_round d pos (ds ++ b'.' ∷ (fraction ++ b' ' ∷ rest)) p
      ∙ fraction_number b'-' (d ∷ ds) fraction pos rest (p, ps) qs)
round_at-source (quoted text) pos rest p =
    rw (append_assoc text (b'\'' ∷ []) (b' ' ∷ rest)) (string_round text pos (b' ' ∷ rest) p)
round_at-source _ pos rest p = refl

-- ===== src/Query/Lexer/RoundTrip.antt =====
-- `lex` reads back lexemes.
use uniqcol.Common.{
  All, Bool, Bytes, List, [], ap, arith, false, length, length-append, ok, refl, some, suc, true,
  zero, ℕ, ◌++◌, ◌+◌, ◌-◌, ◌∷◌, ◌≡◌, ◌≤◌,
}
use uniqcol.Query.{FilterOp}
use uniqcol.Query.Lexer.{eof, Token, lex, lex_loop}
use uniqcol.Query.Lexer.Lexemes.{
  IsWord, all_tokens, operator, number, decimal, signed, Lexeme, Proper, op_text, render, source,
  tokens_at,
}
use uniqcol.Query.Lexer.Rounds.{round_at, round_at-source}

abbrev pub unmoved : ℕ → ℕ
unmoved p = p

-- A round that reads a token, and the one that reads the space behind it.
two_rounds :
    (input rest : Bytes) (t : Token) (total fuel : ℕ) (toks : List Token)
    → round_at (total - length input) input ≡ ok (some t, b' ' ∷ rest)
    → lex_loop total fuel rest ≡ ok toks
    → lex_loop total (suc (suc fuel)) input ≡ ok (t ∷ toks)
unfolding lex_loop round_at
two_rounds [] rest t total fuel toks h k = cc
two_rounds (c ∷ cs) rest t total fuel toks h k = rw (h, k) refl

length-op_text : (o : FilterOp) → 1 ≤ length (op_text o)
unfolding op_text
length-op_text FilterOp.neq = omega arith
length-op_text FilterOp.lte = omega arith
length-op_text FilterOp.gte = omega arith
length-op_text _ = omega arith

length-signed : (negative : Bool) (c : ℕ) (cs : Bytes) → 1 ≤ length (signed negative (c ∷ cs))
length-signed true c cs = omega arith
length-signed false c cs = omega arith

length-word : (text : Bytes) → IsWord text → 1 ≤ length text
unfolding IsWord
length-word [] w = absurd w
length-word (c ∷ cs) w = omega arith

length-source : (l : Lexeme) → Proper l → 1 ≤ length (source l)
unfolding source Proper
length-source (operator o) p = length-op_text o
length-source (number negative d ds) p = length-signed negative d ds
length-source (decimal negative d ds fraction) p = length-signed negative d (ds ++ b'.' ∷ fraction)
length-source (Lexeme.reserved k text) (w, upper, known) = length-word text w
length-source (Lexeme.identifier text) (w, other) = length-word text w
length-source _ p = omega arith

lex_loop-render :
    (ls : List Lexeme) (total fuel pos : ℕ)
    → All Proper ls
    → length (render ls) ≤ fuel
    → pos + length (render ls) ≡ total
    → lex_loop total fuel (render ls) ≡ ok (all_tokens (tokens_at unmoved pos ls))
unfolding lex_loop render tokens_at
lex_loop-render [] total fuel pos proper enough at =
    ap (λ n. ok (record { kind = eof; text = []; pos = n } ∷ [])) (omega (arith, at))
lex_loop-render (l ∷ ls) total zero pos proper enough at =
    absurd (omega (arith, length-append (source l) (b' ' ∷ render ls), enough))
lex_loop-render (l ∷ ls) total (suc zero) pos (p, ps) enough at =
    absurd (omega (arith, length-append (source l) (b' ' ∷ render ls), length-source l p, enough))
lex_loop-render (l ∷ ls) total (suc (suc fuel)) pos (p, ps) enough at =
    let long = length-append (source l) (b' ' ∷ render ls) in
    let rest =
      lex_loop-render ls total fuel (pos + length (source l) + 1) ps
        (omega (arith, long, length-source l p, enough)) (omega (arith, long, at)) in
    let at_pos : total - length (source l ++ b' ' ∷ render ls) ≡ pos = omega (arith, at) in
    two_rounds (source l ++ b' ' ∷ render ls) (render ls) _ total fuel _
      (rw at_pos (round_at-source l pos (render ls) p)) rest

-- Commas, parentheses, stars, operators, keywords, identifiers, numbers and strings that are
-- written with a space behind each are read by `lex` as their tokens in that order, with the
-- position at which each starts, and the end of the input behind them. A keyword may be written in
-- any case. The texts are assumed to be proper: words start with a letter or an underscore and go
-- on with these or digits, an identifier is no keyword in any case, numbers consist of digits, and
-- strings have no quote in them.
pub lex-render :
    (ls : List Lexeme) → All Proper ls → lex (render ls) ≡ ok (all_tokens (tokens_at unmoved 0 ls))
unfolding lex
lex-render ls proper =
    lex_loop-render ls (length (render ls)) (length (render ls)) 0 proper (omega arith)
      (omega arith)

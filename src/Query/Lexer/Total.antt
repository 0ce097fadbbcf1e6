-- ===== src/Query/Lexer/Total.antt =====
-- The lexer comes to an end, and its last token is the end of the input.
use uniqcol.Common.{
  >>=-Delivers, Bool, Bool-cases, Bytes, Delivers, List, Option, [], arith, err, fails, false,
  gives, if◌then◌else◌, inl, inr, leb, length, map, none, ok, panic, refl, some, stuck, suc, true,
  zero, ℕ, ◌-◌, ◌∷◌, ◌≡◌, ◌≤◌,
}
use uniqcol.Query.Lexer.{
  Token, ParseError, Round, eof, is_digit, is_ident_part, span, lex_bang, lex_angle, close_string,
  lex_string, lex_fraction, lex_number, lex_word, lex_round, to_upper, keywords, is_keyword,
  append_token, lex_loop, lex,
}

-- The last token is `eof`. No list without a token is closed.
abbrev pub Closed : List Token → Type 0
Closed [] = ⊥
Closed (t ∷ []) = t.kind ≡ eof
Closed (t ∷ u ∷ toks) = Closed (u ∷ toks)

le→leb : (a b : ℕ) → a ≤ b → leb a b ≡ true
le→leb a b h = ground arith

-- A round that leaves at most `n` bytes, or an error.
unfoldable shorter : ℕ → Round → Bool
shorter n (ok p) = leb (length p.1) n
shorter n (err e) = true
shorter n _ = false

length-span : (test : ℕ → Bool) (cs : Bytes) → length (span test cs).1 ≤ length cs
unfolding span
length-span test [] = omega arith
length-span test (c ∷ cs) = elim (Bool-cases (test c)) [
  | inl h ↦ rw h (omega (arith, length-span test cs))
  | inr h ↦ rw h (omega arith)
]

shorter-lex_bang : (pos : ℕ) (cs : Bytes) → shorter (length cs) (lex_bang pos cs) ≡ true
unfolding shorter lex_bang
shorter-lex_bang pos [] = refl
shorter-lex_bang pos (c ∷ cs) = ground arith

shorter-lex_angle : (pos a : ℕ) (cs : Bytes) → shorter (length cs) (lex_angle pos a cs) ≡ true
unfolding shorter lex_angle
shorter-lex_angle pos a [] = refl
shorter-lex_angle pos a (c ∷ cs) = ground arith

shorter-close_string :
    (pos n : ℕ) (text cs : Bytes) → length cs ≤ n → shorter n (close_string pos text cs) ≡ true
unfolding shorter close_string
shorter-close_string pos n text [] h = refl
shorter-close_string pos n text (c ∷ cs) h = ground arith

shorter-lex_string : (pos : ℕ) (cs : Bytes) → shorter (length cs) (lex_string pos cs) ≡ true
unfolding lex_string
shorter-lex_string pos cs = shorter-close_string pos (length cs) _ _ (length-span _ cs)

shorter-lex_fraction :
    (pos n : ℕ) (text cs : Bytes) → length cs ≤ n → shorter n (lex_fraction pos text cs) ≡ true
unfolding shorter lex_fraction
shorter-lex_fraction pos n text [] h = ground arith
shorter-lex_fraction pos n text (c ∷ cs) h = ground (arith, length-span is_digit cs)

shorter-lex_number : (pos c : ℕ) (cs : Bytes) → shorter (length cs) (lex_number pos c cs) ≡ true
unfolding lex_number
shorter-lex_number pos c cs = shorter-lex_fraction pos (length cs) _ _ (length-span is_digit cs)

shorter-lex_word : (pos c : ℕ) (cs : Bytes) → shorter (length cs) (lex_word pos c cs) ≡ true
unfolding lex_word shorter
shorter-lex_word pos c cs =
    let left =
      le→leb (length (span is_ident_part cs).1) (length cs) (length-span is_ident_part cs) in
    elim (Bool-cases (is_keyword keywords (map to_upper (c ∷ (span is_ident_part cs).0)))) [
      | inl h ↦ rw h left
      | inr h ↦ rw h left
    ]

shorter_if :
    (n : ℕ) (b : Bool) (x y : Round)
    → shorter n x ≡ true
    → shorter n y ≡ true
    → shorter n (if b then x else y) ≡ true
shorter_if n true x y h k = h
shorter_if n false x y h k = k

shorter_same : (o : Option Token) (cs : Bytes) → shorter (length cs) (ok (o, cs)) ≡ true
unfolding shorter
shorter_same o cs = le→leb (length cs) (length cs) (omega arith)

shorter_err : (n : ℕ) (e : ParseError) → shorter n (err e) ≡ true
unfolding shorter
shorter_err n e = refl

-- A round leaves less than it found.
shorter-lex_round : (pos c : ℕ) (cs : Bytes) → shorter (length cs) (lex_round pos c cs) ≡ true
unfolding lex_round
shorter-lex_round pos c cs =
    search
      (
        shorter_if, shorter_same, shorter_err, shorter-lex_bang, shorter-lex_angle,
        shorter-lex_string, shorter-lex_number, shorter-lex_word,
      )
      depth 14

shorter-Delivers :
    (n : ℕ) (m : Round)
    → shorter n m ≡ true
    → Delivers (λ (p : Option Token × Bytes). length p.1 ≤ n) m
unfolding shorter
shorter-Delivers n (ok p) h = gives (ground arith)
shorter-Delivers n (err e) h = fails
shorter-Delivers n panic h = cc
shorter-Delivers n stuck h = cc

append_token-Closed :
    (t : Option Token) (more : List Token) → Closed more → Closed (append_token t more)
append_token-Closed none more h = h
append_token-Closed (some t) (u ∷ more) h = h
append_token-Closed (some t) [] h = absurd h

lex_loop-Delivers :
    (total fuel : ℕ) (input : Bytes)
    → length input ≤ fuel
    → Delivers Closed (lex_loop total fuel input)
unfolding lex_loop
lex_loop-Delivers total fuel [] h = gives refl
lex_loop-Delivers total zero (c ∷ cs) h = absurd (omega arith)
lex_loop-Delivers total (suc fuel) (c ∷ cs) h =
    >>=-Delivers _ _
      (shorter-Delivers (length cs) _ (shorter-lex_round (total - length (c ∷ cs)) c cs))
      (λ (t, rest) less.
        >>=-Delivers _ _ (lex_loop-Delivers total fuel rest (omega arith))
          (λ more closed. gives (append_token-Closed t more closed)))

-- `lex` gives tokens of which the last one is the end of the input, or an error.
pub lex-Delivers : (input : Bytes) → Delivers Closed (lex input)
unfolding lex
lex-Delivers input = lex_loop-Delivers (length input) (length input) input (omega arith)

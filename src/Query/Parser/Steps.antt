-- ===== src/Query/Parser/Steps.antt =====
-- The parser's state is never without a token, and its loops end.
use uniqcol.Common.{
  >>=-Delivers, Bytes, Delivers, Option, [], ap, arith, fail_if-Delivers, false, gives, length, ok,
  ok-injective, or_fail, or_fail-Delivers, refl, suc, true, ℕ, ◌∷◌, ◌≡◌, ◌≤◌,
}
use uniqcol.Query.Lexer.Total.{Closed}
use uniqcol.Query.Lexer.{TokenKind, Token, eof}
use uniqcol.Query.Parser.State.{Tokens, peek, advance, kind_is, is_kw, expect_kind}

-- What is left of at most `n` tokens, the last one being the end of the input.
abbrev pub Left : ℕ → Tokens → Type 0
Left n toks = Closed toks × (length toks ≤ n)

abbrev pub Anything {ℓ} : {A : Type ℓ} → A → Type 0
Anything a = Unit

pub peek-Delivers :
    (n : ℕ) (toks : Tokens) → Left n toks → Delivers (λ (t : Token). peek toks ≡ ok t) (peek toks)
unfolding peek
peek-Delivers n [] (h, k) = absurd h
peek-Delivers n (t ∷ toks) h = gives refl

pub advance-Left :
    (n : ℕ) (toks : Tokens)
    → Left n toks
    → Delivers (λ (p : Token × Tokens). Left n p.1) (advance toks)
unfolding advance
advance-Left n [] (h, k) = absurd h
advance-Left n (t ∷ []) h = gives h
advance-Left n (t ∷ u ∷ toks) (h, k) = gives (h, omega arith)

pub kind_is_eof : (t : Token) → t.kind ≡ eof → kind_is eof t ≡ true
kind_is_eof t h = rw h refl

-- A token that is not the end of the input is taken off the list.
pub advance_shorter :
    (n : ℕ) (toks : Tokens) (t : Token)
    → Left (suc n) toks
    → peek toks ≡ ok t
    → kind_is eof t ≡ false
    → Delivers (λ (p : Token × Tokens). Left n p.1) (advance toks)
unfolding advance peek
advance_shorter n [] t (h, k) at other = absurd h
advance_shorter n (u ∷ []) t (h, k) at other =
    cc (kind_is_eof u h, ap (kind_is eof) (ok-injective at), other)
advance_shorter n (u ∷ v ∷ toks) t (h, k) at other = gives (h, omega arith)

pub expect_kind-Left :
    (n : ℕ) (k : TokenKind) (toks : Tokens) → Left n toks → Delivers (Left n) (expect_kind k toks)
unfolding expect_kind
expect_kind-Left n k toks h =
    >>=-Delivers _ _ (advance-Left n toks h)
      (λ (t, rest) h'. fail_if-Delivers _ _ _ (λ b. gives h'))

pub or_fail-Anything {ℓ κ} :
    {E : Type ℓ} {A : Type κ} (o : Option A) (e : E) → Delivers (Anything {A = A}) (or_fail o e)
or_fail-Anything o e = or_fail-Delivers o e (λ a h. tt)

pub Left-zero : (toks : Tokens) → Left 0 toks → ⊥
Left-zero [] (h, k) = h
Left-zero (t ∷ toks) (h, k) = omega arith

pub Left-suc : (n : ℕ) (toks : Tokens) → Left n toks → Left (suc n) toks
Left-suc n toks (h, k) = (h, omega arith)

-- A keyword or a comma is no end of the input.
pub keyword_other : (word : Bytes) (t : Token) → is_kw word t ≡ true → kind_is eof t ≡ false
keyword_other word t h = ground arith

pub comma_other : (t : Token) → kind_is TokenKind.comma t ≡ true → kind_is eof t ≡ false
comma_other t h = ground arith

-- ===== src/Query/Parser/Where/Printed.antt =====
-- The WHERE clause reads back the comparisons it is printed from.
use uniqcol.Common.{
  List, [], arith, bytes_eq, length, ok, refl, some, suc, zero, ℕ, ◌++◌, ◌<◌, ◌∷◌, ◌≡◌, ◌≤◌,
}
use uniqcol.Query.{FilterOp}
use uniqcol.Query.Lexer.Lexemes.{op_text, pos_after}
use uniqcol.Query.Parser.State.{Tokens, peek, advance}
use uniqcol.Query.Parser.Where.{
  Literals, Conditions, Connective, and_also, or_else, connective, build_filter, parse_op,
  literal_value, parse_comparison, parse_conditions, parse_where,
}
use uniqcol.Query.Lexer.Lexemes.{
  Lexeme, pos_after, pos_after_all, all_tokens, kind_of, source, text_of, tokens_at,
}
use uniqcol.Query.Parser.Printer.{
  AllReadable, Condition, MoreConditions, Readable, condition_lexemes, connective_text,
  more_lexemes, placed, placed_all, kw_lexeme,
}
use uniqcol.Storage.Types.{Value}

parse_op-op_text : (o : FilterOp) → parse_op (op_text o) ≡ some o
unfolding parse_op op_text bytes_eq
parse_op-op_text FilterOp.eq = refl
parse_op-op_text FilterOp.neq = refl
parse_op-op_text FilterOp.lt = refl
parse_op-op_text FilterOp.gt = refl
parse_op-op_text FilterOp.lte = refl
parse_op-op_text FilterOp.gte = refl

-- No condition starts with these tokens.
abbrev pub EndsClause : Literals → Tokens → Type 0
EndsClause lit toks = (fuel : ℕ) → parse_conditions lit (suc fuel) toks ≡ ok ([], toks)

module _ (lit : Literals) (literal : Value → Lexeme) (spots : ℕ → ℕ) where
  parse_comparison-tokens_at :
      (p : ℕ) (c : Condition) (k : List Lexeme)
      → Readable literal lit c
      → parse_comparison lit (all_tokens (tokens_at spots p (condition_lexemes literal c ++ k)))
        ≡ ok (
          placed literal (spots p) c,
          all_tokens (tokens_at spots (pos_after_all p (condition_lexemes literal c)) k),
        )
  unfolding parse_comparison tokens_at pos_after_all advance literal_value kind_of text_of source
  parse_comparison-tokens_at p c k readable = rw (parse_op-op_text c.op, readable _) refl

  -- One more condition.
  parse_conditions_more :
      (fuel p : ℕ) (o : Connective) (c : Condition) (k : List Lexeme) (more : Conditions)
      (toks : Tokens)
      → Readable literal lit c
      → parse_conditions lit fuel (
          all_tokens (
            tokens_at spots
              (pos_after_all
                (pos_after p (kw_lexeme (connective_text o)))
                (condition_lexemes literal c))
              k))
        ≡ ok (more, toks)
      → parse_conditions lit (suc fuel) (
          all_tokens
            (tokens_at spots p (kw_lexeme (connective_text o) ∷ condition_lexemes literal c ++ k)))
        ≡ ok (
          (o, placed literal (spots (pos_after p (kw_lexeme (connective_text o)))) c) ∷ more,
          toks,
        )
  unfolding parse_conditions peek advance connective connective_text bytes_eq tokens_at kind_of
      text_of source
  parse_conditions_more fuel p and_also c k more toks readable rest =
      rw
        (
          parse_comparison-tokens_at (pos_after p (kw_lexeme (connective_text and_also))) c k
              readable,
          rest,
        )
        refl
  parse_conditions_more fuel p or_else c k more toks readable rest =
      rw
        (
          parse_comparison-tokens_at (pos_after p (kw_lexeme (connective_text or_else))) c k
              readable,
          rest,
        )
        refl

  parse_conditions-tokens_at :
      (fuel p : ℕ) (cs : MoreConditions) (k : List Lexeme)
      → length cs ≤ fuel
      → AllReadable literal lit cs
      → ((q : ℕ) → EndsClause lit (all_tokens (tokens_at spots q k)))
      → parse_conditions lit
          (suc fuel)
          (all_tokens (tokens_at spots p (more_lexemes literal cs ++ k)))
        ≡ ok (
          placed_all literal spots p cs,
          all_tokens (tokens_at spots (pos_after_all p (more_lexemes literal cs)) k),
        )
  unfolding more_lexemes AllReadable placed_all pos_after_all
  parse_conditions-tokens_at fuel p [] k enough readable ends = ends p fuel
  parse_conditions-tokens_at zero p (c ∷ cs) k enough readable ends = absurd (omega (arith, enough))
  parse_conditions-tokens_at (suc fuel) p ((o, c) ∷ cs) k enough (r, rs) ends =
      parse_conditions_more (suc fuel) p o c (more_lexemes literal cs ++ k) _ _ r
        (parse_conditions-tokens_at fuel _ cs k (omega (arith, enough)) rs ends)

  length-more_lexemes :
      (p : ℕ) (cs : MoreConditions) (k : List Lexeme)
      → length cs < length (all_tokens (tokens_at spots p (more_lexemes literal cs ++ k)))
  unfolding more_lexemes tokens_at pos_after_all
  length-more_lexemes p [] k = omega arith
  length-more_lexemes p ((o, c) ∷ cs) k = omega (
    arith,
    length-more_lexemes
        (pos_after_all (pos_after p (kw_lexeme (connective_text o))) (condition_lexemes literal c))
        cs k,
  )

  pub parse_where-tokens_at :
      (p : ℕ) (first : Condition) (rest : MoreConditions) (k : List Lexeme)
      → Readable literal lit first
      → AllReadable literal lit rest
      → ((q : ℕ) → EndsClause lit (all_tokens (tokens_at spots q k)))
      → parse_where lit (
          all_tokens (
            tokens_at spots p
              (condition_lexemes literal first ++ (more_lexemes literal rest ++ k))))
        ≡ ok (
          build_filter
              (placed literal (spots p) first)
              (placed_all literal spots (pos_after_all p (condition_lexemes literal first)) rest),
          all_tokens (
              tokens_at spots
                (pos_after_all
                  (pos_after_all p (condition_lexemes literal first))
                  (more_lexemes literal rest))
                k),
        )
  unfolding parse_where
  parse_where-tokens_at p first rest k r rs ends =
      let more = pos_after_all p (condition_lexemes literal first) in
      let behind = tokens_at spots more (more_lexemes literal rest ++ k) in
      rw
        (
          parse_comparison-tokens_at p first (more_lexemes literal rest ++ k) r,
          parse_conditions-tokens_at (length behind.1) more rest k
              (omega (arith, length-more_lexemes more rest k)) rs ends,
        )
        refl

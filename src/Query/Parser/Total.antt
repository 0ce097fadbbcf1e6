-- ===== src/Query/Parser/Total.antt =====
-- The parser gives a query or an error.
use uniqcol.Common.{
  >>=-Delivers, Bool, Bool-cases, Bytes, Delivers, Delivers-ne-panic, Delivers-ne-stuck,
  Delivers-ok, List, Result, [], ap, arith, bytes_eq, bytes_eq_iff, fail_if, fail_if-Delivers,
  fails, false, gives, if◌then◌else◌, inl, inr, length, not, ok, panic, refl, stuck, suc, sym, true,
  ℕ, ◌==◌, ◌∷◌, ◌≡◌, ◌≢◌, ◌≤◌,
}
use uniqcol.Query.Parser.Where.Total.{parse_where-Left}
use uniqcol.Query.Parser.Steps.{Left, peek-Delivers, advance-Left}
use uniqcol.Query.Parser.Projection.Total.{Shaped, Parsed, parse_projection-Parsed}
use uniqcol.Query.Lexer.Total.{lex-Delivers}
use uniqcol.Query.{Query, ProjectionKind}
use uniqcol.Query.Lexer.{
  TokenKind, ParseError, kw_by, kw_where, kw_from, kw_group, kw_having, kw_select,
}
use uniqcol.Query.Parser.{
  parse_group_by, validate_grouped, where_clause, parse_clauses, parse_query, parse,
}
use uniqcol.Query.Parser.State.{Tokens, kind_is, is_kw}
use uniqcol.Query.Parser.Where.{Literals}

parse_group_by-Parsed :
    (n : ℕ) (q : Query) (toks : Tokens)
    → Shaped q
    → Left n toks
    → Delivers (Parsed n) (parse_group_by q toks)
unfolding parse_group_by
parse_group_by-Parsed n q toks shape h =
    >>=-Delivers _ _ (advance-Left n toks h) (λ (group, toks₁) h₁.
      >>=-Delivers _ _ (advance-Left n toks₁ h₁) (λ (by, toks₂) h₂.
        fail_if-Delivers (not (is_kw kw_by by)) _ _ (λ a.
          >>=-Delivers _ _ (advance-Left n toks₂ h₂) (λ (col, toks₃) h₃.
            fail_if-Delivers (not (kind_is TokenKind.ident col)) _ _ (λ b.
              >>=-Delivers _ _ (peek-Delivers n toks₃ h₃) (λ next at.
                fail_if-Delivers (kind_is TokenKind.comma next) _ _ (λ c. gives (shape, h₃))))))))

where_clause-Parsed :
    (lit : Literals) (n : ℕ) (q : Query) (toks : Tokens)
    → Shaped q
    → Left n toks
    → Delivers (Parsed n) (where_clause lit q toks)
unfolding where_clause
where_clause-Parsed lit n q toks shape h =
    >>=-Delivers _ _ (advance-Left n toks h) (λ (t, toks₁) h₁.
      >>=-Delivers _ _ (parse_where-Left lit n toks₁ h₁) (λ (e, toks₂) h₂. gives (shape, h₂)))

-- An optional clause: the state after it, or as it was.
optional_clause :
    (n : ℕ) (b : Bool) (q : Query) (toks : Tokens) (clause : Result ParseError (Query × Tokens))
    → Shaped q
    → Left n toks
    → Delivers (Parsed n) clause
    → Delivers (Parsed n) (if b then clause else ok (q, toks))
optional_clause n true q toks clause shape h d = d
optional_clause n false q toks clause shape h d = gives (shape, h)

-- A grouped query has its group column as its only column; another one has no group column.
abbrev pub Settled : ProjectionKind → Bytes → List Bytes → Type 0
Settled ProjectionKind.grouped group_by cols = (cols ≡ group_by ∷ []) × (1 ≤ length group_by)
Settled _ group_by cols = group_by ≡ []

abbrev SettledQuery : Query → Type 0
SettledQuery q = Settled q.projection q.group_by q.columns

abbrev Answered : ℕ → Query × Tokens → Type 0
Answered n p = SettledQuery p.0 × Left n p.1

no_group :
    (group_by : Bytes) (e : ParseError)
    → Delivers (λ (u : Unit {0}). group_by ≡ []) (fail_if (not (length group_by == 0)) e)
no_group [] e = gives refl
no_group (b ∷ bs) e =
    let some_name : (suc (length bs) == 0) ≡ false = ground arith in rw some_name fails

-- The index of the group column is in range.
validate_grouped-Settled :
    (kind : ProjectionKind) (group_by : Bytes) (cols : List Bytes)
    → (kind ≡ ProjectionKind.grouped → length cols ≡ 1)
    → Delivers (λ (u : Unit {0}). Settled kind group_by cols) (validate_grouped kind group_by cols)
unfolding validate_grouped
validate_grouped-Settled ProjectionKind.grouped group_by [] shape =
    absurd (omega (arith, shape refl))
validate_grouped-Settled ProjectionKind.grouped group_by (c ∷ d ∷ cs) shape =
    absurd (omega (arith, shape refl))
validate_grouped-Settled ProjectionKind.grouped group_by (c ∷ []) shape =
    fail_if-Delivers (length group_by == 0) _ _ (λ a. elim (Bool-cases (bytes_eq group_by c)) [
      | inr b ↦ rw b fails
      | inl b ↦ rw b (gives (ap (λ n. n ∷ []) (sym ((bytes_eq_iff group_by c).0 b)), ground arith))
    ])
validate_grouped-Settled ProjectionKind.columns group_by cols shape = no_group group_by _
validate_grouped-Settled ProjectionKind.star group_by cols shape = no_group group_by _
validate_grouped-Settled ProjectionKind.count_star group_by cols shape = no_group group_by _
validate_grouped-Settled ProjectionKind.sum_column group_by cols shape = no_group group_by _

parse_clauses-Answered :
    (lit : Literals) (n : ℕ) (q : Query) (toks : Tokens)
    → Shaped q
    → Left n toks
    → Delivers (Answered n) (parse_clauses lit q toks)
unfolding parse_clauses
parse_clauses-Answered lit n q toks shape h = >>=-Delivers _ _ (peek-Delivers n toks h) (λ t at.
    fail_if-Delivers (is_kw kw_from t) _ _ (λ a.
      >>=-Delivers _ _
        (optional_clause n (is_kw kw_where t) q toks _ shape h
          (where_clause-Parsed lit n q toks shape h))
        (λ (q₁, toks₁) (shape₁, h₁). >>=-Delivers _ _ (peek-Delivers n toks₁ h₁) (λ u at₁.
          >>=-Delivers _ _
            (optional_clause n (is_kw kw_group u) q₁ toks₁ _ shape₁ h₁
              (parse_group_by-Parsed n q₁ toks₁ shape₁ h₁))
            (λ (q₂, toks₂) (shape₂, h₂). >>=-Delivers _ _ (peek-Delivers n toks₂ h₂) (λ hav at₂.
              fail_if-Delivers (is_kw kw_having hav) _ _ (λ b.
                >>=-Delivers _ _
                  (validate_grouped-Settled q₂.projection q₂.group_by q₂.columns shape₂)
                  (λ u settled. gives (settled, h₂)))))))))

parse_query-Answered :
    (lit : Literals) (n : ℕ) (toks : Tokens)
    → Left n toks
    → Delivers (Answered n) (parse_query lit toks)
unfolding parse_query
parse_query-Answered lit n toks h = >>=-Delivers _ _ (advance-Left n toks h) (λ (t, toks₁) h₁.
    fail_if-Delivers (not (is_kw kw_select t)) _ _ (λ a.
      >>=-Delivers _ _ (parse_projection-Parsed n toks₁ h₁)
        (λ (q, toks₂) (shape, h₂). parse_clauses-Answered lit n q toks₂ shape h₂)))

parse-Settled : (lit : Literals) (input : Bytes) → Delivers SettledQuery (parse lit input)
unfolding parse
parse-Settled lit input = >>=-Delivers _ _ (lex-Delivers input) (λ toks closed.
    >>=-Delivers _ _ (parse_query-Answered lit (length toks) toks (closed, omega arith))
      (λ (q, rest) (settled, h).
        >>=-Delivers _ _ (peek-Delivers (length toks) rest h)
          (λ t at. fail_if-Delivers (not (kind_is TokenKind.eof t)) _ _ (λ a. gives settled))))

-- On any input, and whatever `strconv` makes of the numbers in it, `Parse` comes to an end and does
-- not panic: it gives a query or an error.
pub parse_total :
    (lit : Literals) (input : Bytes) → (parse lit input ≢ panic) × (parse lit input ≢ stuck)
parse_total lit input =
    let d = parse-Settled lit input in (Delivers-ne-panic d, Delivers-ne-stuck d)

-- In a query that `Parse` gives, a grouped projection has one column, which is the group column and
-- has a name; with every other projection there is no group column.
pub parse_grouping :
    (lit : Literals) (input : Bytes) (q : Query)
    → parse lit input ≡ ok q
    → Settled q.projection q.group_by q.columns
parse_grouping lit input q e = Delivers-ok (parse-Settled lit input) e

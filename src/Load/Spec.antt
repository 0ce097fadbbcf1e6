-- ===== src/Load/Spec.antt =====
-- The schema that a specification gives.
use uniqcol.Common.{
  ==_of_ne, >>=-eq-ok, Bool, Bool-cases, Bytes, List, [], ap, arith, bytes_eq, fail_if-eq-ok, false,
  inl, inr, length, not, ok, ok-injective, or-false, or_fail, refl, subst, suc, sym, true, ◌++◌,
  ◌==◌, ◌||◌, ◌∙◌, ◌∷◌, ◌≡◌, ◌≤◌,
}
use uniqcol.Bloom.Sizing.{new}
use uniqcol.Load.{
  parse_item, parse_items, parse_schema_spec, has_column, load_schema, cut_colon, type_named,
  split_comma,
}
use uniqcol.Storage.Types.{Column, Schema, seen_name, validate, validate_columns}

parse_item-new :
    (trim : Bytes → Bytes) (seen : List Bytes) (part : Bytes) (c : Column)
    → parse_item trim seen part ≡ ok c
    → seen_name c.name seen ≡ false
unfolding parse_item
parse_item-new trim seen part c e =
    let ((before, after), _, e₁) = >>=-eq-ok (or_fail (cut_colon [] (trim part)) _) _ e in
    let (_, e₂) = fail_if-eq-ok (length (trim before) == 0) _ _ e₁ in
    let (new, e₃) = fail_if-eq-ok (seen_name (trim before) seen) _ _ e₂ in
    let (t, _, e₄) = >>=-eq-ok (or_fail (type_named (trim after)) _) _ e₃ in
    subst (λ (d : Column). seen_name d.name seen ≡ false) (ok-injective e₄) new

not-false : (b : Bool) → not b ≡ false → b ≡ true
not-false true h = refl
not-false false h = cc

or_swap : (a b c : Bool) → (a || b || c) ≡ (b || (a || c))
or_swap true true c = refl
or_swap true false c = refl
or_swap false b c = refl

parse_items-validate_columns :
    (trim : Bytes → Bytes) (pk : Bytes) (seen parts : List Bytes) (cs : List Column)
    → parse_items trim seen parts ≡ ok cs
    → (seen_name pk seen || has_column pk cs) ≡ true
    → validate_columns pk seen cs ≡ ok tt
unfolding parse_items validate_columns has_column seen_name
parse_items-validate_columns trim pk seen [] cs e key =
    subst
      (λ ds. (seen_name pk seen || has_column pk ds) ≡ true → validate_columns pk seen ds ≡ ok tt)
      (ok-injective e)
      (λ k.
        let found : seen_name pk seen ≡ true = sym (or-false (seen_name pk seen)) ∙ k in
        rw found refl)
      key
parse_items-validate_columns trim pk seen (part ∷ parts) cs e key =
    let (c, item, e₁) = >>=-eq-ok (parse_item trim seen part) _ e in
    let (rest, more, e₂) = >>=-eq-ok (parse_items trim (c.name ∷ seen) parts) _ e₁ in
    subst
      (λ ds. (seen_name pk seen || has_column pk ds) ≡ true → validate_columns pk seen ds ≡ ok tt)
      (ok-injective e₂)
      (λ k. rw (parse_item-new trim seen part c item) (
        parse_items-validate_columns trim pk (c.name ∷ seen) parts rest more
          (or_swap (bytes_eq c.name pk) (seen_name pk seen) (has_column pk rest) ∙ k)))
      key

length-parse_items :
    (trim : Bytes → Bytes) (seen parts : List Bytes) (cs : List Column)
    → parse_items trim seen parts ≡ ok cs
    → length cs ≡ length parts
unfolding parse_items
length-parse_items trim seen [] cs e = sym (ap length (ok-injective e))
length-parse_items trim seen (part ∷ parts) cs e =
    let (c, item, e₁) = >>=-eq-ok (parse_item trim seen part) _ e in
    let (rest, more, e₂) = >>=-eq-ok (parse_items trim (c.name ∷ seen) parts) _ e₁ in
    sym (ap length (ok-injective e₂))
    ∙ ap suc (length-parse_items trim (c.name ∷ seen) parts rest more)

length-split_comma : (part cs : Bytes) → 1 ≤ length (split_comma part cs)
unfolding split_comma
length-split_comma part [] = omega arith
length-split_comma part (c ∷ cs) = elim (Bool-cases (c == b',')) [
  | inl comma ↦ rw comma (omega arith)
  | inr other ↦ rw other (length-split_comma (part ++ c ∷ []) cs)
]

-- A schema that `runLoad` makes of a specification and a key passes `Validate`, whatever
-- `strings.TrimSpace` does.
pub load_schema-validate :
    (trim : Bytes → Bytes) (spec pk : Bytes) (s : Schema)
    → load_schema trim spec pk ≡ ok s
    → validate s ≡ ok tt
unfolding load_schema parse_schema_spec validate seen_name
load_schema-validate trim spec pk s e =
    let (cols, parsed, e₁) = >>=-eq-ok (parse_schema_spec trim spec) _ e in
    let (found, e₂) = fail_if-eq-ok (not (has_column pk cols)) _ _ e₁ in
    let (_, items) = fail_if-eq-ok (length spec == 0) _ _ parsed in
    let some_column : (length cols == 0) ≡ false = ==_of_ne _ _ (λ z. omega (
      arith,
      z,
      length-parse_items trim [] (split_comma [] spec) cols items,
      length-split_comma [] spec,
    )) in
    subst (λ (t : Schema). validate t ≡ ok tt) (ok-injective e₂)
      (rw some_column (
        parse_items-validate_columns trim pk [] (split_comma [] spec) cols items
          (not-false (has_column pk cols) found)))

-- ===== src/Query/Parser/Where/Meaning.antt =====
-- What a WHERE clause means.
use uniqcol.Common.{
  Bool, List, [], and-true, and_assoc, ap, false, or-false, or_assoc, refl, sym, true, ◌&&◌, ◌++◌,
  ◌||◌, ◌∙◌, ◌∷◌, ◌≡◌,
}
use uniqcol.Query.{
  Comparison, FilterExpr, FilterExprs, comparison, conj, disj, end, child, malformed,
}
use uniqcol.Query.Parser.Where.{
  Conditions, and_also, or_else, group_conditions, leaves, lower_group, group_nodes, join_groups,
  build_filter,
}

-- The tree, read with a truth value for each comparison.
unfoldable mutual
  pub holds : (Comparison → Bool) → FilterExpr → Bool
  holds sat (comparison c) = sat c
  holds sat (conj es) = all_hold sat es
  holds sat (disj es) = some_holds sat es
  holds sat malformed = false

  pub all_hold : (Comparison → Bool) → FilterExprs → Bool
  all_hold sat end = true
  all_hold sat (child e es) = holds sat e && all_hold sat es

  pub some_holds : (Comparison → Bool) → FilterExprs → Bool
  some_holds sat end = false
  some_holds sat (child e es) = holds sat e || some_holds sat es

-- The clause as it is written, AND binding tighter than OR: `b` is the value of the ANDs so far.
unfoldable pub reading : (Comparison → Bool) → Bool → Conditions → Bool
reading sat b [] = b
reading sat b ((and_also, c) ∷ rest) = reading sat (b && sat c) rest
reading sat b ((or_else, c) ∷ rest) = b || reading sat (sat c) rest

all_hold-append :
    (sat : Comparison → Bool) (cs : List Comparison) (c : Comparison)
    → all_hold sat (leaves (cs ++ c ∷ [])) ≡ (all_hold sat (leaves cs) && sat c)
unfolding all_hold leaves
all_hold-append sat [] c = and-true (sat c)
all_hold-append sat (d ∷ cs) c =
    ap (λ b. sat d && b) (all_hold-append sat cs c)
    ∙ sym (and_assoc (sat d) (all_hold sat (leaves cs)) (sat c))

some_holds-append :
    (sat : Comparison → Bool) (gs : List (List Comparison)) (g : List Comparison)
    → some_holds sat (group_nodes (gs ++ g ∷ []))
      ≡ (some_holds sat (group_nodes gs) || holds sat (lower_group g))
unfolding some_holds group_nodes
some_holds-append sat [] g = or-false _
some_holds-append sat (h ∷ gs) g =
    ap (λ b. holds sat (lower_group h) || b) (some_holds-append sat gs g)
    ∙ sym (
        or_assoc (holds sat (lower_group h)) (some_holds sat (group_nodes gs))
          (holds sat (lower_group g)))

-- A node for one child only has the value of the child.
holds-lower_group :
    (sat : Comparison → Bool) (g : List Comparison)
    → holds sat (lower_group g) ≡ all_hold sat (leaves g)
unfolding holds lower_group leaves
holds-lower_group sat [] = refl
holds-lower_group sat (c ∷ []) = sym (and-true _)
holds-lower_group sat (c ∷ d ∷ g) = refl

holds-join_groups :
    (sat : Comparison → Bool) (gs : List (List Comparison))
    → holds sat (join_groups gs) ≡ some_holds sat (group_nodes gs)
unfolding holds join_groups group_nodes
holds-join_groups sat [] = refl
holds-join_groups sat (g ∷ []) = sym (or-false _)
holds-join_groups sat (g ∷ h ∷ gs) = refl

all_hold-single :
    (sat : Comparison → Bool) (c : Comparison) → all_hold sat (leaves (c ∷ [])) ≡ sat c
unfolding all_hold leaves
all_hold-single sat c = and-true (sat c)

-- The finished groups, or else the clause from the current group on.
some_holds-group_conditions :
    (sat : Comparison → Bool) (gs : List (List Comparison)) (cur : List Comparison)
    (rest : Conditions)
    → some_holds sat (group_nodes (group_conditions gs cur rest))
      ≡ (some_holds sat (group_nodes gs) || reading sat (all_hold sat (leaves cur)) rest)
unfolding group_conditions reading
some_holds-group_conditions sat gs cur [] =
    some_holds-append sat gs cur
    ∙ ap (λ b. some_holds sat (group_nodes gs) || b) (holds-lower_group sat cur)
some_holds-group_conditions sat gs cur ((and_also, c) ∷ rest) =
    some_holds-group_conditions sat gs (cur ++ c ∷ []) rest
    ∙ ap (λ b. some_holds sat (group_nodes gs) || reading sat b rest) (all_hold-append sat cur c)
some_holds-group_conditions sat gs cur ((or_else, c) ∷ rest) =
    some_holds-group_conditions sat (gs ++ cur ∷ []) (c ∷ []) rest
    ∙ rw (some_holds-append sat gs cur, holds-lower_group sat cur, all_hold-single sat c)
        (or_assoc (some_holds sat (group_nodes gs)) (all_hold sat (leaves cur))
          (reading sat (sat c) rest))

-- The filter tree that `parseWhere` builds out of the comparisons of a clause and the connectives
-- between them has the value of the clause with AND binding tighter than OR, for every assignment
-- of truth values to comparisons.
pub holds-build_filter :
    (sat : Comparison → Bool) (first : Comparison) (rest : Conditions)
    → holds sat (build_filter first rest) ≡ reading sat (sat first) rest
unfolding build_filter some_holds group_nodes
holds-build_filter sat first rest =
    holds-join_groups sat (group_conditions [] (first ∷ []) rest)
    ∙ some_holds-group_conditions sat [] (first ∷ []) rest
    ∙ ap (λ b. reading sat b rest) (all_hold-single sat first)

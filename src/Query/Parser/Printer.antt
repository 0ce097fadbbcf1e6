-- ===== src/Query/Parser/Printer.antt =====
-- The statements of the grammar of query/parser.go, and the lexemes that they are written with.
use uniqcol.Common.{Bytes, List, Option, [], length, none, ok, some, ℕ, ◌++◌, ◌∷◌, ◌≡◌, ◌≤◌}
use uniqcol.Query.{AggregateKind, Comparison, FilterExpr, FilterOp, ProjectionKind, Query}
use uniqcol.Query.Lexer.{kw_and, kw_by, kw_count, kw_group, kw_or, kw_select, kw_sum, kw_where}
use uniqcol.Query.Lexer.Lexemes.{
  Lexeme, a_comma, a_lparen, a_rparen, a_star, pos_after, pos_after_all, reserved, kind_of,
  identifier, operator, source, text_of,
}
use uniqcol.Query.Parser.Where.{
  Conditions, Connective, Literals, and_also, build_filter, literal_of, or_else,
}
use uniqcol.Storage.Types.{Value}

pub data Shape : Type 0 where
  whole_rows row_count : Shape
  some_columns : Bytes → List Bytes → Shape
  column_sum : Bytes → Shape
  grouped_count : Bytes → Shape
  grouped_sum : Bytes → Bytes → Shape

-- A comparison without a position.
pub record Condition : Type 0 where
  pub column : Bytes
  pub op : FilterOp
  pub value : Value

abbrev pub MoreConditions : Type 0
MoreConditions = List (Connective × Condition)

-- What is selected, and the first condition of the WHERE clause with those behind it.
pub record Statement : Type 0 where
  pub shape : Shape
  pub clause : Option (Condition × MoreConditions)

unfoldable pub connective_text : Connective → Bytes
connective_text and_also = kw_and
connective_text or_else = kw_or

-- A keyword in upper case.
abbrev pub kw_lexeme : Bytes → Lexeme
kw_lexeme k = reserved k k

abbrev pub count_lexemes : List Lexeme
count_lexemes = kw_lexeme kw_count ∷ a_lparen ∷ a_star ∷ a_rparen ∷ []

abbrev pub sum_lexemes : Bytes → List Lexeme
sum_lexemes col = kw_lexeme kw_sum ∷ a_lparen ∷ identifier col ∷ a_rparen ∷ []

unfoldable pub column_lexemes : List Bytes → List Lexeme
column_lexemes [] = []
column_lexemes (c ∷ cs) = a_comma ∷ identifier c ∷ column_lexemes cs

unfoldable pub shape_lexemes : Shape → List Lexeme
unfolding column_lexemes
shape_lexemes whole_rows = a_star ∷ []
shape_lexemes row_count = count_lexemes
shape_lexemes (some_columns c cs) = identifier c ∷ column_lexemes cs
shape_lexemes (column_sum col) = sum_lexemes col
shape_lexemes (grouped_count g) = identifier g ∷ a_comma ∷ count_lexemes
shape_lexemes (grouped_sum g col) = identifier g ∷ a_comma ∷ sum_lexemes col

unfoldable pub group_lexemes : Shape → List Lexeme
group_lexemes (grouped_count g) = kw_lexeme kw_group ∷ kw_lexeme kw_by ∷ identifier g ∷ []
group_lexemes (grouped_sum g col) = kw_lexeme kw_group ∷ kw_lexeme kw_by ∷ identifier g ∷ []
group_lexemes _ = []

-- `literal` writes a value.
module _ (literal : Value → Lexeme) where
  abbrev pub condition_lexemes : Condition → List Lexeme
  condition_lexemes c = identifier c.column ∷ operator c.op ∷ literal c.value ∷ []

  unfoldable pub more_lexemes : MoreConditions → List Lexeme
  unfolding connective_text
  more_lexemes [] = []
  more_lexemes ((o, c) ∷ rest) =
      kw_lexeme (connective_text o) ∷ condition_lexemes c ++ more_lexemes rest

  unfoldable pub clause_lexemes : Option (Condition × MoreConditions) → List Lexeme
  unfolding more_lexemes
  clause_lexemes none = []
  clause_lexemes (some (first, rest)) =
      kw_lexeme kw_where ∷ condition_lexemes first ++ more_lexemes rest

  unfoldable pub statement_lexemes : Statement → List Lexeme
  unfolding shape_lexemes clause_lexemes group_lexemes
  statement_lexemes st =
      kw_lexeme kw_select ∷ shape_lexemes st.shape
      ++ (clause_lexemes st.clause ++ group_lexemes st.shape)

  -- The comparisons, with the positions of their columns.
  abbrev pub placed : ℕ → Condition → Comparison
  placed p c = record { column = c.column; op = c.op; value = c.value; pos = p }

  unfoldable pub placed_all : (ℕ → ℕ) → ℕ → MoreConditions → Conditions
  unfolding connective_text pos_after_all source
  placed_all spots p [] = []
  placed_all spots p ((o, c) ∷ rest) =
      let first = pos_after p (kw_lexeme (connective_text o)) in
      (o, placed (spots first) c)
      ∷ placed_all spots (pos_after_all first (condition_lexemes c)) rest

  unfoldable pub filter_of : (ℕ → ℕ) → ℕ → Option (Condition × MoreConditions) → Option FilterExpr
  unfolding build_filter placed_all pos_after_all source
  filter_of spots p none = none
  filter_of spots p (some (first, rest)) =
      let start = pos_after p (kw_lexeme kw_where) in
      some (
        build_filter (placed (spots start) first)
          (placed_all spots (pos_after_all start (condition_lexemes first)) rest))

  -- `literal_of` gives back each literal as it is written, wherever it stands.
  abbrev pub Readable : Literals → Condition → Type 0
  Readable lit c =
      (p : ℕ)
      → literal_of lit p (text_of (literal c.value)) (kind_of (literal c.value)) ≡ ok c.value

  unfoldable pub AllReadable : Literals → MoreConditions → Type 0
  AllReadable lit [] = Unit
  AllReadable lit ((o, c) ∷ rest) = Readable lit c × AllReadable lit rest

  unfoldable pub ReadableClause : Literals → Option (Condition × MoreConditions) → Type 0
  unfolding AllReadable
  ReadableClause lit none = Unit
  ReadableClause lit (some (first, rest)) = Readable lit first × AllReadable lit rest

-- The query that a projection means, without its clauses.
unfoldable pub projected_query : Shape → Query
projected_query whole_rows = record {
  projection = ProjectionKind.star;
  columns = [];
  sum_column = [];
  group_by = [];
  group_agg = AggregateKind.count_star;
  filter = none;
}
projected_query row_count = record {
  projection = ProjectionKind.count_star;
  columns = [];
  sum_column = [];
  group_by = [];
  group_agg = AggregateKind.count_star;
  filter = none;
}
projected_query (some_columns c cs) = record {
  projection = ProjectionKind.columns;
  columns = c ∷ cs;
  sum_column = [];
  group_by = [];
  group_agg = AggregateKind.count_star;
  filter = none;
}
projected_query (column_sum col) = record {
  projection = ProjectionKind.sum_column;
  columns = [];
  sum_column = col;
  group_by = [];
  group_agg = AggregateKind.count_star;
  filter = none;
}
projected_query (grouped_count g) = record {
  projection = ProjectionKind.grouped;
  columns = g ∷ [];
  sum_column = [];
  group_by = [];
  group_agg = AggregateKind.count_star;
  filter = none;
}
projected_query (grouped_sum g col) = record {
  projection = ProjectionKind.grouped;
  columns = g ∷ [];
  sum_column = col;
  group_by = [];
  group_agg = AggregateKind.sum_column;
  filter = none;
}

unfoldable pub group_of : Shape → Bytes
group_of (grouped_count g) = g
group_of (grouped_sum g col) = g
group_of _ = []

-- The query that a statement means.
unfoldable pub query_of : (Value → Lexeme) → (ℕ → ℕ) → Statement → Query
unfolding projected_query group_of filter_of pos_after_all shape_lexemes source
query_of literal spots st = record (projected_query st.shape) {
  group_by = group_of st.shape;
  filter =
      filter_of literal spots
        (pos_after_all (pos_after 0 (kw_lexeme kw_select)) (shape_lexemes st.shape)) st.clause;
}

unfoldable pub NamedShape : Shape → Type 0
NamedShape (grouped_count g) = 1 ≤ length g
NamedShape (grouped_sum g col) = 1 ≤ length g
NamedShape _ = Unit

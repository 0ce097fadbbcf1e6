-- ===== src/Query/Group/Counts.antt =====
-- The counts of the groups.
use uniqcol.Common.{
  >>=-eq-ok, All, Bool, Bool-cases, Bytes, List, Option, [], ap, append_assoc, arith, bytes_eq_refl,
  false, inl, inr, length, map-append, none, ok, ok-injective, panic, refl, some, subst, suc, sym,
  zero, ℕ, ◌++◌, ◌+◌, ◌>>=◌, ◌∙◌, ◌∷◌, ◌≡◌, ◌⊎◌,
}
use uniqcol.Query.Group.Rounds.{
  taken, taken_skip, taken_take, group_rows_skip, group_rows_take, taken-estimate_rows,
}
use uniqcol.Query.Aggregate.Rows.{Selects}
use uniqcol.Query.Group.Keys.{
  total_count, Keyed, put_group_found, put_group_new, Apart-append, keys_of, total_count-append,
  Apart, find_group_hit, find_group-append, Apart-before,
}
use uniqcol.Bloom.Sizing.{new}
use uniqcol.Query.{Query, Answer, FloatOps}
use uniqcol.Query.Group.{
  Accumulator, Summed, counted, GroupTable, Groups, fresh, group_row, group_rows, emit_groups,
  group_answer, find_group, value_eq, accumulate, group_value,
}
use uniqcol.Query.Aggregate.{make_rows, skipped, row_value_at, estimate_rows}
use uniqcol.Storage.Segment.{Segment, Decoded}
use uniqcol.Storage.Types.{Value}

-- A NaN, which differs from itself, equals no number: IEEE 754.
abbrev pub NanDiffers : FloatOps → Type 0
NanDiffers fl = (x y : ℕ) → fl.float_eq x x ≡ false → fl.float_eq y x ≡ false

-- A key that differs from itself equals no key.
pub value_eq_differs :
    (fl : FloatOps) (k key : Value)
    → NanDiffers fl
    → value_eq fl key key ≡ false
    → value_eq fl k key ≡ false
unfolding value_eq
value_eq_differs fl (Value.float64 y) (Value.float64 x) nan h = nan x y h
value_eq_differs fl (Value.int64 y) (Value.int64 x) nan h = absurd (ground arith)
value_eq_differs fl (Value.string y) (Value.string x) nan h = cc (bytes_eq_refl x, h)
value_eq_differs fl _ _ nan h = refl

-- The counts of the map add up.
abbrev Counted : FloatOps → Groups → ℕ → Type 0
Counted fl g total = Keyed fl g × (total_count g.table ≡ total)

group_row-Counted :
    (fl : FloatOps) (col : Bytes) (i total : ℕ) (key : Value) (g g' : Groups)
    (found : Option Accumulator)
    → find_group fl key g.table ≡ found
    → Counted fl g total
    → group_row fl col counted i key g found ≡ ok g'
    → Counted fl g' (total + 1)
unfolding group_row accumulate total_count
group_row-Counted fl col i total key g g' (some acc) at ((keys, apart), sum) e =
    let (keys', sum') =
      put_group_found fl key acc (record acc { count = acc.count + 1 }) g.table at in
    subst (λ (h : Groups). Counted fl h (total + 1)) (ok-injective e)
      ((keys' ∙ keys, apart), omega (arith, sum, sum'))
group_row-Counted fl col i total key g g' none at ((keys, apart), sum) e =
    let (put, new) = put_group_new fl key (record fresh { count = 1 }) g.table at in
    subst (λ (h : Groups). Counted fl h (total + 1)) (ok-injective e)
      (
        (
          ap keys_of put ∙ map-append _ g.table _ ∙ ap (λ (ks : List Value). ks ++ key ∷ []) keys,
          Apart-append fl g.keys key apart (subst (All (λ k. value_eq fl k key ≡ false)) keys new),
        ),
        ap total_count put
            ∙ omega
                (arith, sum, total_count-append g.table ((key, record fresh { count = 1 }) ∷ [])),
      )

group_rows-Counted :
    (fl : FloatOps) (col : Bytes) (keys : Decoded) (selection : Option (List Bool)) (n i total : ℕ)
    (g g' : Groups)
    → Counted fl g total
    → group_rows fl col counted keys selection n i g ≡ ok g'
    → Counted fl g' (total + taken selection n i)
unfolding group_rows taken
group_rows-Counted fl col keys selection zero i total g g' (keyed, sum) e =
    subst (λ (h : Groups). Counted fl h (total + 0)) (ok-injective e) (keyed, omega (arith, sum))
group_rows-Counted fl col keys selection (suc n) i total g g' c e =
    let (skip, got, _) = >>=-eq-ok (skipped selection i) _ e in
    elim (Bool-cases skip) [
      | inl yes_skip ↦
          let at = got ∙ ap ok yes_skip in
          subst (λ m. Counted fl g' (total + m)) (sym (taken_skip selection n i at))
            (group_rows-Counted fl col keys selection n (i + 1) total g g' c
              (sym (group_rows_skip fl col counted keys selection n i g at) ∙ e))
      | inr no_skip ↦
          let at = got ∙ ap ok no_skip in
          let (key, _, e₂) =
            >>=-eq-ok (row_value_at keys i) _
              (sym (group_rows_take fl col counted keys selection n i g at) ∙ e) in
          let (h, row, e₃) =
            >>=-eq-ok (group_row fl col counted i key g (find_group fl key g.table)) _ e₂ in
          let c' =
            group_row-Counted fl col i total key g h (find_group fl key g.table) refl c row in
          let later = group_rows-Counted fl col keys selection n (i + 1) (total + 1) h g' c' e₃ in
          (later.0, omega (arith, later.1, taken_take selection n i at))
    ]

-- The counts in the rows of an answer.
unfoldable pub row_counts : List (List Value) → ℕ
row_counts [] = 0
row_counts ((k ∷ Value.uint64 n ∷ []) ∷ rows) = n + row_counts rows
row_counts (_ ∷ rows) = row_counts rows

pub find_group_differs :
    (fl : FloatOps) (key : Value) (table : GroupTable)
    → NanDiffers fl
    → value_eq fl key key ≡ false
    → find_group fl key table ≡ none
unfolding find_group
find_group_differs fl key [] nan h = refl
find_group_differs fl key ((k, acc) ∷ table) nan h =
    rw (value_eq_differs fl k key nan h) (find_group_differs fl key table nan h)

-- The entry of a key, behind entries with other keys; one that differs from itself is not found.
find_own :
    (fl : FloatOps) (key : Value) (acc : Accumulator) (pre rest : GroupTable)
    → NanDiffers fl
    → Apart fl (keys_of (pre ++ (key, acc) ∷ rest))
    → (find_group fl key (pre ++ (key, acc) ∷ rest) ≡ some acc)
      ⊎ (find_group fl key (pre ++ (key, acc) ∷ rest) ≡ none)
find_own fl key acc pre rest nan apart = elim (Bool-cases (value_eq fl key key)) [
  | inr differs ↦ inr (find_group_differs fl key (pre ++ (key, acc) ∷ rest) nan differs)
  | inl same ↦
      let others =
        Apart-before fl (keys_of pre) key (keys_of rest)
          (subst (Apart fl) (map-append _ pre _) apart) in
      inl (
        find_group-append fl key pre ((key, acc) ∷ rest) others
        ∙ (find_group_hit fl key key acc rest same).0)
]

pub emit_groups-none :
    (fl : FloatOps) (summed : Summed) (k : Value) (ks : List Value) (table : GroupTable)
    → find_group fl k table ≡ none
    → emit_groups fl summed (k ∷ ks) table ≡ panic
unfolding emit_groups
emit_groups-none fl summed k ks table h = rw (emit_groups, h) refl

pub emit_groups-some :
    (fl : FloatOps) (k : Value) (ks : List Value) (table : GroupTable) (acc : Accumulator)
    → find_group fl k table ≡ some acc
    → emit_groups fl counted (k ∷ ks) table
      ≡ (emit_groups fl counted ks table >>= λ rows. ok ((k ∷ Value.uint64 acc.count ∷ []) ∷ rows))
unfolding emit_groups group_value
emit_groups-some fl k ks table acc h = rw (emit_groups, h) refl

row_counts-emit_groups :
    (fl : FloatOps) (pre rest : GroupTable) (rows : List (List Value))
    → NanDiffers fl
    → Apart fl (keys_of (pre ++ rest))
    → emit_groups fl counted (keys_of rest) (pre ++ rest) ≡ ok rows
    → row_counts rows ≡ total_count rest
unfolding emit_groups row_counts total_count
row_counts-emit_groups fl pre [] rows nan apart e = sym (ap row_counts (ok-injective e))
row_counts-emit_groups fl pre ((k, acc) ∷ rest) rows nan apart e =
    let table = pre ++ (k, acc) ∷ rest in
    let moved : (pre ++ (k, acc) ∷ []) ++ rest ≡ table = append_assoc pre ((k, acc) ∷ []) rest in
    elim (find_own fl k acc pre rest nan apart) [
      | inr absent ↦ cc (sym (emit_groups-none fl counted k (keys_of rest) table absent) ∙ e)
      | inl found ↦
          let (more, done, e₁) =
            >>=-eq-ok (emit_groups fl counted (keys_of rest) table) _
              (sym (emit_groups-some fl k (keys_of rest) table acc found) ∙ e) in
          sym (ap row_counts (ok-injective e₁))
          ∙ ap (λ n. acc.count + n)
              (row_counts-emit_groups fl (pre ++ (k, acc) ∷ []) rest more nan
                (subst (λ t. Apart fl (keys_of t)) (sym moved) apart)
                (subst (λ t. emit_groups fl counted (keys_of rest) t ≡ ok more) (sym moved) done))
    ]

pub row_counts-group_answer :
    (fl : FloatOps) (q : Query) (s t : Segment) (keys : Decoded) (selection : Option (List Bool))
    (a : Answer)
    → NanDiffers fl
    → Selects selection s.row_count
    → group_answer fl q s keys counted selection ≡ ok (t, a)
    → row_counts a.rows ≡ estimate_rows s.row_count selection
unfolding group_answer total_count
row_counts-group_answer fl q s t keys selection a nan size e =
    let (g, grouped, e₁) =
      >>=-eq-ok
        (group_rows fl q.sum_column counted keys selection s.row_count 0
          (record { keys = []; table = [] }))
        _ e in
    let (_, _, e₂) = >>=-eq-ok (make_rows (length g.keys)) _ e₁ in
    let (rows, emitted, e₃) = >>=-eq-ok (emit_groups fl counted g.keys g.table) _ e₂ in
    let ((keyed, apart), sum) =
      group_rows-Counted fl q.sum_column keys selection s.row_count 0 0
        (record { keys = []; table = [] }) g ((refl, tt), refl) grouped in
    let out =
      row_counts-emit_groups fl [] g.table rows nan (subst (Apart fl) (sym keyed) apart)
        (subst (λ ks. emit_groups fl counted ks g.table ≡ ok rows) (sym keyed) emitted) in
    sym (ap (λ (p : Segment × Answer). row_counts p.1.rows) (ok-injective e₃))
    ∙ omega (arith, out, sum, taken-estimate_rows selection s.row_count size)

-- ===== src/Command/Format/Commas.antt =====
-- The commas stand in front of groups of three.
use uniqcol.Common.{
  All, Bool-cases, Bytes, List, [], ap, append-nil, append_assoc, arith, drop, false, inl, inr, leb,
  length, length-drop, ltb, lt→ltb, ok, refl, suc, sym, take, true, zero, ℕ, ◌%◌, ◌*◌, ◌++◌, ◌+◌,
  ◌-◌, ◌/◌, ◌==◌, ◌∙◌, ◌∷◌, ◌≡◌, ◌≤◌,
}
use uniqcol.Query.Aggregate.Rows.{drop-length}
use uniqcol.Command.Format.{Texts, comma_loop, comma_sep, comma_sep_uint64, first_group, slice}

-- Groups one after the other, and with a comma in front of each.
abbrev pub joined : List Bytes → Bytes
joined [] = []
joined (g ∷ gs) = g ++ joined gs

abbrev pub comma_joined : List Bytes → Bytes
comma_joined [] = []
comma_joined (g ∷ gs) = b',' ∷ (g ++ comma_joined gs)

slice_lem :
    (s : Bytes) (i j : ℕ) → i ≤ j → j ≤ length s → slice s i j ≡ ok (take (j - i) (drop i s))
unfolding slice
slice_lem s i j h k = ground arith

comma_loop_done :
    (fuel : ℕ) (s : Bytes) (i : ℕ) (out : Bytes) → length s ≤ i → comma_loop fuel s i out ≡ ok out
unfolding comma_loop
comma_loop_done zero s i out h = ground arith
comma_loop_done (suc fuel) s i out h = ground arith

comma_loop_round :
    (fuel : ℕ) (s : Bytes) (i : ℕ) (out : Bytes)
    → i + 3 ≤ length s
    → comma_loop (suc fuel) s i out ≡ comma_loop fuel s (i + 3) (out ++ b',' ∷ take 3 (drop i s))
unfolding comma_loop
comma_loop_round fuel s i out h =
    let inside : ltb i (length s) ≡ true = lt→ltb i (length s) (omega arith) in
    let three : i + 3 - i ≡ 3 = omega arith in
    let group = slice_lem s i (i + 3) (omega arith) h ∙ ap (λ n. ok (take n (drop i s))) three in
    rw (comma_loop, inside, group) refl

take-drop : (n : ℕ) (xs : Bytes) → take n xs ++ drop n xs ≡ xs
take-drop zero xs = refl
take-drop (suc n) [] = refl
take-drop (suc n) (x ∷ xs) = ap (λ ys. x ∷ ys) (take-drop n xs)

drop_empty : (n : ℕ) → ◌≡◌ {A = Bytes} (drop n []) []
drop_empty zero = refl
drop_empty (suc n) = refl

drop-drop : (i j : ℕ) (xs : Bytes) → drop j (drop i xs) ≡ drop (i + j) xs
drop-drop zero j xs = ap (λ n. drop n xs) (omega arith)
drop-drop (suc i) j [] = drop_empty j ∙ sym (drop_empty (suc i + j))
drop-drop (suc i) j (x ∷ xs) =
    let moved : suc (i + j) ≡ suc i + j = omega arith in
    drop-drop i j xs ∙ ap (λ n. drop n (x ∷ xs)) moved

length-take : (n : ℕ) (xs : Bytes) → n ≤ length xs → length (take n xs) ≡ n
length-take zero xs h = refl
length-take (suc n) [] h = absurd (omega arith)
length-take (suc n) (x ∷ xs) h = ap suc (length-take n xs (omega arith))

-- From `i` on, with `m` groups left.
comma_loop_lem :
    (m fuel : ℕ) (s : Bytes) (i : ℕ) (out : Bytes)
    → m ≤ fuel
    → length s ≡ i + 3 * m
    → (gs : List Bytes) × (comma_loop fuel s i out ≡ ok (out ++ comma_joined gs))
      × (drop i s ≡ joined gs)
      × All (λ g. length g ≡ 3) gs
comma_loop_lem zero fuel s i out h size = (
  [],
  comma_loop_done fuel s i out (omega (arith, size)) ∙ ap ok (sym (append-nil out)),
  drop-length s i (omega (arith, size)),
  tt,
)
comma_loop_lem (suc m) zero s i out h size = absurd (omega arith)
comma_loop_lem (suc m) (suc fuel) s i out h size =
    let group = take 3 (drop i s) in
    let (gs, looped, rest, threes) =
      comma_loop_lem m fuel s (i + 3) (out ++ b',' ∷ group) (omega arith) (omega (arith, size)) in
    (
      group ∷ gs,
      comma_loop_round fuel s i out (omega (arith, size))
          ∙ looped
          ∙ ap ok (append_assoc out (b',' ∷ group) (comma_joined gs)),
      sym (take-drop 3 (drop i s)) ∙ ap (λ xs. group ++ xs) (drop-drop i 3 s ∙ rest),
      (length-take 3 (drop i s) (omega (arith, length-drop i s, size)), threes),
    )

first_group_lem :
    (n : ℕ)
    → 1 ≤ n
    → (m : ℕ) × (n ≡ first_group n + 3 * m) × (1 ≤ first_group n) × (first_group n ≤ 3) × (m ≤ n)
unfolding first_group
first_group_lem n h = elim (Bool-cases (n % 3 == 0)) [
  | inl whole ↦ rw whole (n / 3 - 1, ground arith, omega arith, omega arith, omega arith)
  | inr part ↦ rw part (n / 3, omega arith, ground arith, omega arith, omega arith)
]

comma_sep_long :
    (s : Bytes)
    → leb (length s) 3 ≡ false
    → comma_sep s
      ≡ comma_loop (length s) s (first_group (length s)) (take (first_group (length s)) s)
unfolding comma_sep
comma_sep_long s h =
    let n = length s in
    let (_, _, _, most, _) = first_group_lem n (ground arith) in
    let head =
      slice_lem s 0 (first_group n) (omega arith) (ground arith)
      ∙ ap (λ k. ok (take k s)) (omega arith) in
    rw (comma_sep, h, head) refl

comma_sep_short : (s : Bytes) → leb (length s) 3 ≡ true → comma_sep s ≡ ok s
unfolding comma_sep
comma_sep_short s h = rw (comma_sep, h) refl

-- `commaSepUint64` gives the digits of `FormatUint` with a comma in front of each of some groups of
-- three, behind one to three digits in front. `FormatUint` is assumed to give at least one digit.
pub comma_sep_uint64_lem :
    (tx : Texts) (n : ℕ)
    → 1 ≤ length (tx.format_uint n)
    → (head : Bytes) × (gs : List Bytes) × (comma_sep_uint64 tx n ≡ ok (head ++ comma_joined gs))
      × (tx.format_uint n ≡ head ++ joined gs)
      × (1 ≤ length head)
      × (length head ≤ 3)
      × All (λ g. length g ≡ 3) gs
unfolding comma_sep_uint64
comma_sep_uint64_lem tx n some_digits =
    let s = tx.format_uint n in
    elim (Bool-cases (leb (length s) 3)) [
      | inl short ↦ (
        s,
        [],
        comma_sep_short s short ∙ ap ok (sym (append-nil s)),
        sym (append-nil s),
        some_digits,
        ground arith,
        tt,
      )
      | inr long ↦
          let (m, size, least, most, fuel) = first_group_lem (length s) some_digits in
          let k = first_group (length s) in
          let (gs, looped, rest, threes) = comma_loop_lem m (length s) s k (take k s) fuel size in
          let head_size = length-take k s (omega arith) in
          (
            take k s,
            gs,
            comma_sep_long s long ∙ looped,
            sym (take-drop k s) ∙ ap (λ xs. take k s ++ xs) rest,
            omega (arith, head_size, least),
            omega (arith, head_size, most),
            threes,
          )
    ]

-- ===== src/DotGraph/Chosen.antt =====
-- Which nodes `printDot` of DotGraph.java prints.
use javaprofiler.Base.{
  ℕ, zero, suc, ◌^◌, ◌≤◌, ◌<◌, min, ◌≡◌, refl, ap, sym, subst, ◌∙◌, ◌⊎◌, inl, inr, ℤ, pos, int_le,
  int_le_trans, Bool, Bool-cases, true, false, some, List, [], ◌∷◌, ◌++◌, length, take, get_elem?,
  All, arith, ltb, if◌then◌else◌, append_assoc, drop, length-take, take-append-drop, All-take,
  length-append,
}
use javaprofiler.DotGraph.{
  opt_node_count, to_long, abs_long, keys_by_count_descending, nodes_kept, nodes,
}
use javaprofiler.DotGraph.Sorted.{
  IsAtLeast, IsDescending, sort-IsDescending, sort-All, entry_count, entry_count-sort,
}

-- A count of at most the limit, and a count that is not negative.
abbrev pub is_small : ℤ → List ℕ × ℕ → Bool
is_small node_limit e = int_le (abs_long e.1) node_limit

abbrev pub IsCount : List ℕ × ℕ → Type 0
IsCount e = e.1 < 2 ^ 63

IsCount-pos : (e : List ℕ × ℕ) → IsCount e → (to_long e.1 ≡ pos e.1) × (abs_long e.1 ≡ pos e.1)
unfolding to_long abs_long
IsCount-pos e p = let h : ltb e.1 (2 ^ 63) ≡ true = ground arith in (rw h refl, rw h refl)

smaller :
    (limit : ℤ) (e f : List ℕ × ℕ)
    → IsCount e
    → IsCount f
    → IsAtLeast e f
    → is_small limit e ≡ true
    → is_small limit f ≡ true
smaller limit e f p q h k =
    let (e_long, e_abs) = IsCount-pos e p in
    let (f_long, f_abs) = IsCount-pos f q in
    let below : int_le (pos f.1) (pos e.1) ≡ true = rw (f_long, e_long) at h in
    rw f_abs (int_le_trans (pos f.1) (pos e.1) limit below (rw e_abs at k))

smaller_tail :
    (limit : ℤ) (e : List ℕ × ℕ) (es : List (List ℕ × ℕ))
    → IsCount e
    → All IsCount es
    → All (IsAtLeast e) es
    → is_small limit e ≡ true
    → All (λ (f : List ℕ × ℕ). is_small limit f ≡ true) es
smaller_tail limit e [] p q h k = tt
smaller_tail limit e (f ∷ es) p q h k =
    (smaller limit e f p q.0 h.0 k, smaller_tail limit e es p q.1 h.1 k)

-- A descending list is the counts above the limit and then the others.
record Split (limit : ℤ) (list : List (List ℕ × ℕ)) : Type 0 where
  big : List (List ℕ × ℕ)
  small : List (List ℕ × ℕ)
  parts : list ≡ big ++ small
  above : All (λ (e : List ℕ × ℕ). is_small limit e ≡ false) big
  below : All (λ (e : List ℕ × ℕ). is_small limit e ≡ true) small

IsDescending-Split :
    (limit : ℤ) (list : List (List ℕ × ℕ)) → All IsCount list → IsDescending list → Split limit list
IsDescending-Split limit [] p v = record {
  big = [];
  small = [];
  parts = refl;
  above = tt;
  below = tt;
}
IsDescending-Split limit (e ∷ es) p v = elim (Bool-cases (is_small limit e)) [
  | inl low ↦ record {
    big = [];
    small = e ∷ es;
    parts = refl;
    above = tt;
    below = (low, smaller_tail limit e es p.0 p.1 v.0 low);
  }
  | inr high ↦
      let s = IsDescending-Split limit es p.1 v.1 in
      record {
        big = e ∷ s.big;
        small = s.small;
        parts = ap (λ (xs : List (List ℕ × ℕ)). e ∷ xs) s.parts;
        above = (high, s.above);
        below = s.below;
      }
]

-- What stands at a place of such a list.
at_place :
    (limit : ℤ) (big small : List (List ℕ × ℕ)) (i : ℕ)
    → All (λ (e : List ℕ × ℕ). is_small limit e ≡ false) big
    → All (λ (e : List ℕ × ℕ). is_small limit e ≡ true) small
    → i < length (big ++ small)
    → (e : List ℕ × ℕ) × (get_elem? (big ++ small) i ≡ some e)
      × (is_small limit e ≡ (if ltb i (length big) then false else true))
unfolding get_elem?
at_place limit [] [] i v w h = absurd (omega arith)
at_place limit [] (e ∷ small) zero v w h = (e, refl, w.0)
at_place limit [] (e ∷ small) (suc i) v w h =
    let (f, at', q) = at_place limit [] small i v w.1 (omega arith) in (f, at', ground (arith, q))
at_place limit (e ∷ big) small zero v w h = (e, refl, ground (arith, v.0))
at_place limit (e ∷ big) small (suc i) v w h =
    let (f, at', q) = at_place limit big small i v.1 w (omega arith) in (f, at', ground (arith, q))

nodes_kept-min :
    (limit : ℤ) (big small : List (List ℕ × ℕ)) (m : ℕ)
    → All (λ (e : List ℕ × ℕ). is_small limit e ≡ false) big
    → All (λ (e : List ℕ × ℕ). is_small limit e ≡ true) small
    → m ≤ length (big ++ small)
    → nodes_kept limit (big ++ small) m ≡ min m (length big)
unfolding nodes_kept
nodes_kept-min limit big small zero v w h = omega arith
nodes_kept-min limit big small (suc m) v w h =
    let (e, at', q) = at_place limit big small m v w (omega arith) in
    let ih = nodes_kept-min limit big small m v w (omega arith) in
    elim (Bool-cases (ltb m (length big))) [
      | inl inside ↦
          let high : is_small limit e ≡ false = q ∙ rw inside refl in
          rw (nodes_kept, at', high) (ground (arith, inside))
      | inr beyond ↦
          let low : is_small limit e ≡ true = q ∙ rw beyond refl in
          rw (nodes_kept, at', low) (ih ∙ ground (arith, beyond))
    ]

take-short : (n : ℕ) (xs : List (List ℕ × ℕ)) → length xs ≤ n → take n xs ≡ xs
unfolding take
take-short zero [] h = refl
take-short (suc n) [] h = refl
take-short zero (x ∷ xs) h = absurd (omega arith)
take-short (suc n) (x ∷ xs) h = ap (◌∷◌ x) (take-short n xs (omega arith))

take-left : (n : ℕ) (xs ys : List (List ℕ × ℕ)) → n ≤ length xs → take n (xs ++ ys) ≡ take n xs
unfolding take
take-left zero xs ys h = refl
take-left (suc n) [] ys h = absurd (omega arith)
take-left (suc n) (x ∷ xs) ys h = ap (◌∷◌ x) (take-left n xs ys (omega arith))

-- A list has the keys of another with their counts, in the order of falling counts.
abbrev pub IsArranged : List (List ℕ × ℕ) → List (List ℕ × ℕ) → Type 0
IsArranged cumulative list =
    IsDescending list × ((e : List ℕ × ℕ) → entry_count e list ≡ entry_count e cumulative)

arranged :
    (cumulative list : List (List ℕ × ℕ))
    → keys_by_count_descending cumulative ≡ list
    → IsArranged cumulative list
arranged cumulative list h =
    subst (IsArranged cumulative) h
      (sort-IsDescending cumulative, λ e. entry_count-sort e cumulative)

-- The nodes and the keys that are left out.
abbrev pub AreChosen : ℤ → List (List ℕ × ℕ) → Type 0
AreChosen node_limit cumulative =
    let list = nodes node_limit cumulative in
    (rest : List (List ℕ × ℕ)) × IsArranged cumulative (list ++ rest)
    × (length list ≤ opt_node_count)
    × All (λ (e : List ℕ × ℕ). is_small node_limit e ≡ false) list
    × ((length list ≡ opt_node_count) ⊎ All (λ (e : List ℕ × ℕ). is_small node_limit e ≡ true) rest)

nodes-take :
    (limit : ℤ) (cumulative : List (List ℕ × ℕ))
    (s : Split limit (keys_by_count_descending cumulative))
    → nodes limit cumulative ≡ take (min opt_node_count (length s.big)) s.big
unfolding nodes
nodes-take limit cumulative s =
    let list = s.big ++ s.small in
    let kept =
      nodes_kept-min limit s.big s.small (min opt_node_count (length list)) s.above s.below
        (omega arith) in
    let few : min (min opt_node_count (length list)) (length s.big)
        ≡ min opt_node_count (length s.big) =
      omega (arith, length-append s.big s.small) in
    rw (s.parts, kept, few)
      (take-left (min opt_node_count (length s.big)) s.big s.small (omega arith))

Split-AreChosen :
    (limit : ℤ) (cumulative : List (List ℕ × ℕ))
    → Split limit (keys_by_count_descending cumulative)
    → AreChosen limit cumulative
Split-AreChosen limit cumulative s = elim (Bool-cases (ltb opt_node_count (length s.big))) [
  | inr short ↦
      let n : nodes limit cumulative ≡ s.big =
        nodes-take limit cumulative s
        ∙ take-short (min opt_node_count (length s.big)) s.big (ground arith) in
      rw n (
        s.small,
        arranged cumulative (s.big ++ s.small) s.parts,
        ground arith,
        s.above,
        inr s.below,
      )
  | inl long ↦
      let e : min opt_node_count (length s.big) ≡ 80 = ground arith in
      let n : nodes limit cumulative ≡ take 80 s.big =
        nodes-take limit cumulative s ∙ ap (λ (m : ℕ). take m s.big) e in
      let full : length (take 80 s.big) ≡ 80 = length-take 80 s.big ∙ e in
      rw n (
        drop 80 s.big ++ s.small,
        arranged cumulative (take 80 s.big ++ (drop 80 s.big ++ s.small)) (
            s.parts
            ∙ ap (λ (xs : List (List ℕ × ℕ)). xs ++ s.small) (sym (take-append-drop 80 s.big))
            ∙ append_assoc (take 80 s.big) (drop 80 s.big) s.small),
        omega (arith, full),
        All-take (λ (e : List ℕ × ℕ). is_small limit e ≡ false) 80 s.big s.above,
        inl full,
      )
]

-- Where no cumulative count is negative, the nodes together with the keys that are left out are the
-- given keys with their counts, none lost and none added, in the order of falling counts; there are
-- at most 80 nodes, each with a count above the limit, and either there are 80 of them or every key
-- that is left out has a count of at most the limit.
pub nodes-AreChosen :
    (limit : ℤ) (cumulative : List (List ℕ × ℕ))
    → All IsCount cumulative
    → AreChosen limit cumulative
nodes-AreChosen limit cumulative v =
    let sorted = keys_by_count_descending cumulative in
    let s =
      IsDescending-Split limit sorted (sort-All IsCount cumulative v)
        (sort-IsDescending cumulative) in
    Split-AreChosen limit cumulative s

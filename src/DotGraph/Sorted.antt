-- ===== src/DotGraph/Sorted.antt =====
-- The sort `keysByCountDescending` of DotGraph.java.
use javaprofiler.Base.{
  ℕ, ◌≡◌, refl, ℤ, pos, negsuc, int_le, int_le_trans, Bool-cases, true, false, inl, inr, List, [],
  ◌∷◌, All, arith, if◌then◌else◌, list_eq, ◌==◌, ◌&&◌, ◌+◌, ◌∙◌,
}
use javaprofiler.DotGraph.{to_long, insert, keys_by_count_descending}

-- What the sort keeps.
module _ (P : List ℕ × ℕ → Type 0) where
  insert-All : (e : List ℕ × ℕ) (es : List (List ℕ × ℕ)) → P e → All P es → All P (insert e es)
  unfolding insert
  insert-All e [] p v = (p, tt)
  insert-All e (f ∷ es) p v = elim (Bool-cases (int_le (to_long f.1) (to_long e.1))) [
    | inl here ↦ rw here (p, v)
    | inr later ↦ rw later (v.0, insert-All e es p v.1)
  ]

  insert-All_back : (e : List ℕ × ℕ) (es : List (List ℕ × ℕ)) → All P (insert e es) → P e × All P es
  unfolding insert
  insert-All_back e [] v = v
  insert-All_back e (f ∷ es) v = elim (Bool-cases (int_le (to_long f.1) (to_long e.1))) [
    | inl here ↦ rw here at v
    | inr later ↦
        let w = rw later at v in let (p, rest) = insert-All_back e es w.1 in (p, (w.0, rest))
  ]

  pub sort-All : (es : List (List ℕ × ℕ)) → All P es → All P (keys_by_count_descending es)
  unfolding keys_by_count_descending
  sort-All [] v = tt
  sort-All (e ∷ es) v = insert-All e (keys_by_count_descending es) v.0 (sort-All es v.1)

  pub sort-All_back : (es : List (List ℕ × ℕ)) → All P (keys_by_count_descending es) → All P es
  unfolding keys_by_count_descending
  sort-All_back [] v = tt
  sort-All_back (e ∷ es) v =
      let (p, rest) = insert-All_back e (keys_by_count_descending es) v in
      (p, sort-All_back es rest)

abbrev pub IsAtLeast : List ℕ × ℕ → List ℕ × ℕ → Type 0
IsAtLeast e f = int_le (to_long f.1) (to_long e.1) ≡ true

abbrev pub IsDescending : List (List ℕ × ℕ) → Type 0
IsDescending [] = Unit {0}
IsDescending (e ∷ es) = All (IsAtLeast e) es × IsDescending es

int_le_total : (a b : ℤ) → int_le a b ≡ false → int_le b a ≡ true
int_le_total (pos a) (pos b) h = ground arith
int_le_total (pos a) (negsuc b) h = refl
int_le_total (negsuc a) (pos b) h = cc
int_le_total (negsuc a) (negsuc b) h = ground arith

IsAtLeast-trans :
    (e f : List ℕ × ℕ) (es : List (List ℕ × ℕ))
    → IsAtLeast e f
    → All (IsAtLeast f) es
    → All (IsAtLeast e) es
IsAtLeast-trans e f [] h v = tt
IsAtLeast-trans e f (g ∷ es) h v =
    (int_le_trans (to_long g.1) (to_long f.1) (to_long e.1) v.0 h, IsAtLeast-trans e f es h v.1)

insert-IsDescending :
    (e : List ℕ × ℕ) (es : List (List ℕ × ℕ)) → IsDescending es → IsDescending (insert e es)
unfolding insert
insert-IsDescending e [] v = (tt, tt)
insert-IsDescending e (f ∷ es) v = elim (Bool-cases (int_le (to_long f.1) (to_long e.1))) [
  | inl here ↦ rw (here) ((here, IsAtLeast-trans e f es here v.0), v)
  | inr later ↦
      let above = int_le_total (to_long f.1) (to_long e.1) later in
      let rest : All (IsAtLeast f) (insert e es) = insert-All (IsAtLeast f) e es above v.0 in
      rw later (rest, insert-IsDescending e es v.1)
]

pub sort-IsDescending : (es : List (List ℕ × ℕ)) → IsDescending (keys_by_count_descending es)
unfolding keys_by_count_descending
sort-IsDescending [] = tt
sort-IsDescending (e ∷ es) =
    insert-IsDescending e (keys_by_count_descending es) (sort-IsDescending es)

-- How often a key stands in a list with a count.
unfoldable pub entry_count : List ℕ × ℕ → List (List ℕ × ℕ) → ℕ
entry_count e [] = 0
entry_count e (f ∷ es) = (if list_eq e.0 f.0 && e.1 == f.1 then 1 else 0) + entry_count e es

entry_count-insert :
    (g e : List ℕ × ℕ) (es : List (List ℕ × ℕ))
    → entry_count g (insert e es) ≡ entry_count g (e ∷ es)
unfolding entry_count insert
entry_count-insert g e [] = refl
entry_count-insert g e (f ∷ es) = elim (Bool-cases (int_le (to_long f.1) (to_long e.1))) [
  | inl here ↦ rw here refl
  | inr later ↦ rw (later, entry_count) (omega (arith, entry_count-insert g e es))
]

-- The sort loses no entry and adds none.
pub entry_count-sort :
    (g : List ℕ × ℕ) (es : List (List ℕ × ℕ))
    → entry_count g (keys_by_count_descending es) ≡ entry_count g es
unfolding keys_by_count_descending entry_count
entry_count-sort g [] = refl
entry_count-sort g (e ∷ es) =
    entry_count-insert g e (keys_by_count_descending es) ∙ omega (arith, entry_count-sort g es)

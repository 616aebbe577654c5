-- ===== src/ProfileData/Bag.antt =====
-- The samples of profiledata.cc without their order: what `Add` was given, as a bag of stacks.
use mathlib.Core.Quot
use mathlib.Core.Quot.{Quot, Quot-set}
use native.Mathlib.Nat.{ℕ_set}
use javaprofiler.Base.{ℕ, ◌≡◌, refl, List, ◌∷◌, length, arith}
use javaprofiler.ProfileData.Tally.{occurs}

-- As many stacks, and each as often.
abbrev pub SameStacks : List (List ℕ) → List (List ℕ) → Type 0
SameStacks xs ys = (length xs ≡ length ys) × ((k : List ℕ) → occurs k xs ≡ occurs k ys)

abbrev pub Bag : Type 0
Bag = Quot SameStacks

abbrev pub bag_of : List (List ℕ) → Bag
bag_of = Quot.mk

SameStacks-cons :
    (x : List ℕ) (xs ys : List (List ℕ)) → SameStacks xs ys → SameStacks (x ∷ xs) (x ∷ ys)
unfolding occurs
SameStacks-cons x xs ys h = (omega (arith, h.0), λ k. omega (arith, h.1 k))

-- One more sample.
unfoldable pub insert : List ℕ → Bag → Bag
unfolding SameStacks-cons
insert x =
    Quot.lift Quot-set (λ xs. bag_of (x ∷ xs)) (λ xs ys h. Quot.sound (SameStacks-cons x xs ys h))

-- How often a stack was sampled, and how many samples there are.
unfoldable pub occurrences : List ℕ → Bag → ℕ
occurrences k = Quot.lift ℕ_set (occurs k) (λ xs ys h. h.1 k)

unfoldable pub size : Bag → ℕ
size = Quot.lift ℕ_set length (λ xs ys h. h.0)

-- The order of samples is forgotten.
pub insert_comm : (x y : List ℕ) (b : Bag) → insert x (insert y b) ≡ insert y (insert x b)
unfolding insert occurs
insert_comm x y = Quot.ind (λ b. Quot-set _ _) (λ xs. Quot.sound (refl, λ k. omega arith))

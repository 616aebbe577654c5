-- ===== src/Reader/Analyze.antt =====
-- `analyze` of ProfileData.java: the self and the cumulative count of each location.
use javaprofiler.Base.{
  ℕ, ◌+◌, ◌%◌, ◌^◌, ◌<◌, ◌≡◌, ◌≢◌, refl, ap, ◌∙◌, ℤ, to_word, false, Bool-cases, inl, inr, Option,
  none, some, List, [], ◌∷◌, All, arith, ◌==◌, if◌then◌else◌,
}
use javaprofiler.Reader.{Observation}

-- `LocationInfo`: the counts are `int`s, by their 32-bit patterns.
pub record LocationInfo : Type 0 where
  pub pc : ℕ
  pub self_count : ℕ
  pub cumulative_count : ℕ

abbrev pub new_location : ℕ → LocationInfo
new_location pc = record { pc = pc; self_count = 0; cumulative_count = 0 }

-- A location as `getLocation` gives it, which is a new one for a new `pc`, after a change to it. The
-- hash map is the list of its values.
unfoldable pub update : ℕ → (LocationInfo → LocationInfo) → List LocationInfo → List LocationInfo
update pc change [] = change (new_location pc) ∷ []
update pc change (l ∷ ls) =
    let rest = update pc change ls in if l.pc == pc then change l ∷ ls else l ∷ rest

-- `count += n` on an `int`.
abbrev pub int_add : ℕ → ℤ → ℕ
int_add count n = (count + to_word n) % 2 ^ 32

abbrev pub add_self : ℤ → LocationInfo → LocationInfo
add_self n l = record l { self_count = int_add l.self_count n }

abbrev pub add_cumulative : ℤ → LocationInfo → LocationInfo
add_cumulative n l = record l { cumulative_count = int_add l.cumulative_count n }

-- The loop over the stack.
unfoldable pub count_stack : ℤ → List ℕ → List LocationInfo → List LocationInfo
count_stack n [] ls = ls
count_stack n (pc ∷ pcs) ls = count_stack n pcs (update pc (add_cumulative n) ls)

-- One turn of the loop over the observations. `none` is an index out of bounds: an empty stack has no
-- top.
unfoldable pub count_observation : ℤ → List ℕ → List LocationInfo → Option (List LocationInfo)
count_observation n [] ls = none
count_observation n (top ∷ pcs) ls = some (count_stack n (top ∷ pcs) (update top (add_self n) ls))

infixl 5 ◌>>=◌
abbrev pub ◌>>=◌ : {A B : Type 0} → Option A → (A → Option B) → Option B
none >>= next = none
some a >>= next = next a

unfoldable pub analyze : List Observation → List LocationInfo → Option (List LocationInfo)
analyze [] ls = some ls
analyze (o ∷ os) ls = count_observation o.count o.stack ls >>= analyze os

-- The location of a `pc`, or a new one.
unfoldable pub find : ℕ → List LocationInfo → LocationInfo
find pc [] = new_location pc
find pc (l ∷ ls) = if l.pc == pc then l else find pc ls

-- A change that keeps the `pc` changes one location.
pub find-update :
    (p q : ℕ) (f : LocationInfo → LocationInfo) (ls : List LocationInfo)
    → ((l : LocationInfo) → (f l).pc ≡ l.pc)
    → find q (update p f ls) ≡ (if p == q then f (find q ls) else find q ls)
unfolding find update
find-update p q f [] h =
    let moved : ((f (new_location p)).pc == q) ≡ (p == q) =
      ap (λ (x : ℕ). x == q) (h (new_location p)) in
    elim (Bool-cases (p == q)) [
      | inl same ↦
          let e : p ≡ q = ground arith in
          rw (moved ∙ same, same) (ap (λ (x : ℕ). f (new_location x)) e)
      | inr other ↦ rw (moved ∙ other, other) refl
    ]
find-update p q f (l ∷ ls) h = elim (Bool-cases (l.pc == p)) [
  | inl here ↦
      let e : l.pc ≡ p = ground arith in
      let moved : ((f l).pc == q) ≡ (p == q) = ap (λ (x : ℕ). x == q) (h l ∙ e) in
      let stays : (l.pc == q) ≡ (p == q) = ap (λ (x : ℕ). x == q) e in
      elim (Bool-cases (p == q)) [
        | inl same ↦ rw (here, stays ∙ same, same, find, moved ∙ same) refl
        | inr other ↦ rw (here, stays ∙ other, other, find, moved ∙ other) refl
      ]
  | inr other ↦ elim (Bool-cases (l.pc == q)) [
    | inl found ↦ let apart : (p == q) ≡ false = ground arith in rw (other, found, apart) refl
    | inr missing ↦ rw (other, find, missing) (find-update p q f ls h)
  ]
]

-- How often a `pc` is at the top of a stack, and anywhere in it.
abbrev pub top_weight : ℕ → List ℕ → ℕ → ℕ
top_weight q [] n = 0
top_weight q (pc ∷ pcs) n = if pc == q then n else 0

unfoldable pub stack_weight : ℕ → List ℕ → ℕ → ℕ
stack_weight q [] n = 0
stack_weight q (pc ∷ pcs) n = (if pc == q then n else 0) + stack_weight q pcs n

unfoldable pub self_total : ℕ → List Observation → ℕ
self_total q [] = 0
self_total q (o ∷ os) = top_weight q o.stack (to_word o.count) + self_total q os

unfoldable pub cumulative_total : ℕ → List Observation → ℕ
cumulative_total q [] = 0
cumulative_total q (o ∷ os) = stack_weight q o.stack (to_word o.count) + cumulative_total q os

count_stack_self :
    (q : ℕ) (n : ℤ) (pcs : List ℕ) (ls : List LocationInfo)
    → (find q (count_stack n pcs ls)).self_count ≡ (find q ls).self_count
unfolding count_stack
count_stack_self q n [] ls = refl
count_stack_self q n (pc ∷ pcs) ls =
    count_stack_self q n pcs (update pc (add_cumulative n) ls)
    ∙ ap (λ (l : LocationInfo). l.self_count) (find-update pc q (add_cumulative n) ls (λ l. refl))
    ∙ ground arith

count_stack_cumulative :
    (q : ℕ) (n : ℤ) (pcs : List ℕ) (ls : List LocationInfo)
    → (find q ls).cumulative_count < 2 ^ 32
    → (find q (count_stack n pcs ls)).cumulative_count
      ≡ ((find q ls).cumulative_count + stack_weight q pcs (to_word n)) % 2 ^ 32
unfolding count_stack stack_weight
count_stack_cumulative q n [] ls h = ground arith
count_stack_cumulative q n (pc ∷ pcs) ls h =
    let moved =
      ap (λ (l : LocationInfo). l.cumulative_count)
        (find-update pc q (add_cumulative n) ls (λ l. refl)) in
    let ih =
      count_stack_cumulative q n pcs (update pc (add_cumulative n) ls) (ground (arith, moved, h)) in
    ih ∙ ground (arith, moved)

-- What one location's counts are, from what they were.
abbrev Counted : ℕ → List Observation → List LocationInfo → List LocationInfo → Type 0
Counted q os ls ls' =
    ((find q ls').self_count ≡ ((find q ls).self_count + self_total q os) % 2 ^ 32)
    × ((find q ls').cumulative_count
        ≡ ((find q ls).cumulative_count + cumulative_total q os) % 2 ^ 32)

abbrev IsSmall : ℕ → List LocationInfo → Type 0
IsSmall q ls = ((find q ls).self_count < 2 ^ 32) × ((find q ls).cumulative_count < 2 ^ 32)

-- One observation with a top.
count_observation-Counted :
    (q : ℕ) (n : ℤ) (top : ℕ) (pcs : List ℕ) (ls : List LocationInfo)
    → IsSmall q ls
    → Counted q
        (record { stack = top ∷ pcs; count = n } ∷ [])
        ls
        (count_stack n (top ∷ pcs) (update top (add_self n) ls))
unfolding self_total cumulative_total
count_observation-Counted q n top pcs ls v =
    let ls₁ = update top (add_self n) ls in
    let moved = find-update top q (add_self n) ls (λ l. refl) in
    let self = ap (λ (l : LocationInfo). l.self_count) moved in
    let cumulative : (find q ls₁).cumulative_count ≡ (find q ls).cumulative_count =
      ap (λ (l : LocationInfo). l.cumulative_count) moved ∙ ground arith in
    (
      count_stack_self q n (top ∷ pcs) ls₁ ∙ self ∙ ground (arith, v.0),
      count_stack_cumulative q n (top ∷ pcs) ls₁ (omega (arith, cumulative, v.1))
          ∙ ap (λ (c : ℕ). (c + stack_weight q (top ∷ pcs) (to_word n)) % 2 ^ 32) cumulative
          ∙ omega arith,
    )

count_observation-returns :
    (n : ℤ) (stack : List ℕ) (ls : List LocationInfo)
    → stack ≢ []
    → ((q : ℕ) → IsSmall q ls)
    → (ls' : List LocationInfo) × (count_observation n stack ls ≡ some ls')
      × ((q : ℕ) → Counted q (record { stack = stack; count = n } ∷ []) ls ls')
unfolding count_observation
count_observation-returns n [] ls h small = absurd (h refl)
count_observation-returns n (top ∷ pcs) ls h small =
    (_, refl, λ q. count_observation-Counted q n top pcs ls (small q))

analyze-Counted :
    (os : List Observation) (ls : List LocationInfo)
    → All (λ (o : Observation). o.stack ≢ []) os
    → ((q : ℕ) → IsSmall q ls)
    → (ls' : List LocationInfo) × (analyze os ls ≡ some ls') × ((q : ℕ) → Counted q os ls ls')
unfolding analyze self_total cumulative_total
analyze-Counted [] ls v small =
    (ls, refl, λ q. (omega (arith, (small q).0), omega (arith, (small q).1)))
analyze-Counted (o ∷ os) ls v small =
    let (ls₁, run₁, c) = count_observation-returns o.count o.stack ls v.0 small in
    let (ls₂, run₂, d) =
      analyze-Counted os ls₁ v.1 (λ q. (omega (arith, (c q).0), omega (arith, (c q).1))) in
    (ls₂, rw run₁ run₂, λ q. (omega (arith, (c q).0, (d q).0), omega (arith, (c q).1, (d q).1)))

-- The analysis of observations whose stacks are not empty returns, and for every address the self
-- count is the sum of the counts of the observations with that address at the top, and the
-- cumulative count the sum over all observations of the count once for each place of the address in
-- the stack, both modulo 2 ^ 32.
pub analyze-totals :
    (os : List Observation)
    → All (λ (o : Observation). o.stack ≢ []) os
    → (ls : List LocationInfo) × (analyze os [] ≡ some ls)
      × ((q : ℕ)
          → ((find q ls).self_count ≡ self_total q os % 2 ^ 32)
            × ((find q ls).cumulative_count ≡ cumulative_total q os % 2 ^ 32))
unfolding find
analyze-totals os v =
    let (ls, run, c) = analyze-Counted os [] v (λ q. (omega arith, omega arith)) in
    (ls, run, λ q. (omega (arith, (c q).0), omega (arith, (c q).1)))

-- ===== src/ProfileData/Add/Match.antt =====
-- The loops of `Add` over one entry: comparing and copying a stack.
use javaprofiler.Base.{
  ℕ, zero, suc, ◌≤◌, ◌<◌, ◌≡◌, refl, ap, ◌∙◌, List, [], ◌∷◌, length, take, All, arith, true, ==_iff,
  ◌↔◌,
}
use javaprofiler.Slot.{IsSlot}
use javaprofiler.ProfileData.{Entry, max_stack_depth}
use javaprofiler.ProfileData.Sample.{IsEntry}
use javaprofiler.ProfileData.Add.{same_stack, is_match, copy_stack, reuse_entry}

same_stack-take :
    (d : ℕ) (xs ys : List ℕ)
    → d ≤ length xs
    → d ≤ length ys
    → (same_stack d xs ys ≡ true) ↔ (take d xs ≡ take d ys)
unfolding same_stack take
same_stack-take zero xs ys h k = (λ _. refl, λ _. refl)
same_stack-take (suc d) [] ys h k = absurd (omega arith)
same_stack-take (suc d) (x ∷ xs) [] h k = absurd (omega arith)
same_stack-take (suc d) (x ∷ xs) (y ∷ ys) h k =
    let (fore, back) = same_stack-take d xs ys (omega arith) (omega arith) in
    (λ e. ground (arith, fore), λ e. ground (arith, back))

-- For a depth within the limit and the array, the comparison finds exactly the well-formed entries
-- with that depth whose first slots are the caller's.
pub is_match_iff :
    (d : ℕ) (stack : List ℕ) (e : Entry)
    → IsEntry e
    → d ≤ max_stack_depth
    → d ≤ length stack
    → (is_match d stack e ≡ true) ↔ ((e.depth ≡ d) × (take e.depth e.stack ≡ take d stack))
unfolding is_match
is_match_iff d stack e v h k =
    let (fore, back) = same_stack-take d e.stack stack (omega (arith, v.size)) k in
    (λ m. ground (arith, fore), λ p. rw (p.0, (==_iff d d).1 refl) (back (rw p.0 at p.1)))

pub take-copy_stack :
    (d : ℕ) (src dst : List ℕ)
    → d ≤ length src
    → d ≤ length dst
    → take d (copy_stack d src dst) ≡ take d src
unfolding take copy_stack
take-copy_stack zero src dst h k = refl
take-copy_stack (suc d) [] dst h k = absurd (omega arith)
take-copy_stack (suc d) (s ∷ src) [] h k = absurd (omega arith)
take-copy_stack (suc d) (s ∷ src) (t ∷ dst) h k =
    ap (◌∷◌ s) (take-copy_stack d src dst (omega arith) (omega arith))

length-copy_stack : (d : ℕ) (src dst : List ℕ) → length (copy_stack d src dst) ≡ length dst
unfolding copy_stack
length-copy_stack zero src dst = refl
length-copy_stack (suc d) [] dst = refl
length-copy_stack (suc d) (s ∷ src) [] = refl
length-copy_stack (suc d) (s ∷ src) (t ∷ dst) = ap suc (length-copy_stack d src dst)

copy_stack-words :
    (d : ℕ) (src dst : List ℕ) → All IsSlot src → All IsSlot dst → All IsSlot (copy_stack d src dst)
unfolding copy_stack
copy_stack-words zero src dst h k = k
copy_stack-words (suc d) [] dst h k = k
copy_stack-words (suc d) (s ∷ src) [] h k = k
copy_stack-words (suc d) (s ∷ src) (t ∷ dst) h k = (h.0, copy_stack-words d src dst h.1 k.1)

-- The entry that takes over a victim's place is a well-formed entry.
pub reuse_entry-IsEntry :
    (d : ℕ) (stack : List ℕ) (e : Entry)
    → IsEntry e
    → 0 < d
    → d ≤ max_stack_depth
    → All IsSlot stack
    → IsEntry (reuse_entry d stack e)
unfolding reuse_entry
reuse_entry-IsEntry d stack e v pos h words = record {
  size = length-copy_stack d stack e.stack ∙ v.size;
  shallow = h;
  words = copy_stack-words d stack e.stack words v.words;
  word_count = omega arith;
  deep = λ _. pos;
}

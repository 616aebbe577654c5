-- ===== src/Reader/Totals.antt =====
-- Sums over the samples of a profile: they depend only on how often each stack was sampled.
use javaprofiler.Base.{
  ℕ, zero, suc, ◌+◌, ◌≤◌, ◌≡◌, refl, sym, ap, ◌∙◌, Bool, false, Bool-cases, inl, inr, List, [], ◌∷◌,
  length, arith, if◌then◌else◌, list_eq, list_eq_refl, list_eq_sound,
}
use javaprofiler.ProfileData.Sample.{Sample}
use javaprofiler.ProfileData.Tally.{tally}

-- The count of the samples whose stack passes a test.
unfoldable pub matching : (List ℕ → Bool) → List Sample → ℕ
matching test [] = 0
matching test (s ∷ ss) = (if test s.stack then s.count else 0) + matching test ss

-- The samples of the other stacks.
unfoldable without : List ℕ → List Sample → List Sample
without k [] = []
without k (s ∷ ss) = let rest = without k ss in if list_eq s.stack k then rest else s ∷ rest

length-without : (k : List ℕ) (ss : List Sample) → length (without k ss) ≤ length ss
unfolding without
length-without k [] = omega arith
length-without k (s ∷ ss) = ground (arith, length-without k ss)

tally-without : (k : List ℕ) (ss : List Sample) → tally k (without k ss) ≡ 0
unfolding tally without
tally-without k [] = refl
tally-without k (s ∷ ss) = elim (Bool-cases (list_eq s.stack k)) [
  | inl same ↦ rw same (tally-without k ss)
  | inr other ↦ rw (other, tally, other) (omega (arith, tally-without k ss))
]

tally-without_other :
    (k q : List ℕ) (ss : List Sample) → list_eq k q ≡ false → tally q (without k ss) ≡ tally q ss
unfolding tally without
tally-without_other k q [] h = refl
tally-without_other k q (s ∷ ss) h = elim (Bool-cases (list_eq s.stack k)) [
  | inl same ↦
      let e : list_eq s.stack q ≡ false =
        ap (λ (x : List ℕ). list_eq x q) (list_eq_sound s.stack k same) ∙ h in
      rw (same, e) (omega (arith, tally-without_other k q ss h))
  | inr other ↦ rw (other, tally, tally-without_other k q ss h) refl
]

-- One stack's part of a sum.
matching-without :
    (test : List ℕ → Bool) (k : List ℕ) (ss : List Sample)
    → matching test ss ≡ (if test k then tally k ss else 0) + matching test (without k ss)
unfolding matching tally without
matching-without test k [] = ground arith
matching-without test k (s ∷ ss) = elim (Bool-cases (list_eq s.stack k)) [
  | inl same ↦
      let e : test s.stack ≡ test k = ap test (list_eq_sound s.stack k same) in
      rw (same, e) (ground (arith, matching-without test k ss))
  | inr other ↦ rw (other, matching) (ground (arith, matching-without test k ss))
]

matching-none :
    (test : List ℕ → Bool) (ss : List Sample)
    → ((k : List ℕ) → tally k ss ≡ 0)
    → matching test ss ≡ 0
unfolding matching tally
matching-none test [] h = refl
matching-none test (s ∷ ss) h =
    let gone : s.count ≡ 0 = ground (arith, h s.stack, list_eq_refl s.stack) in
    ground (arith, gone, matching-none test ss (λ k. omega (arith, h k)))

same_without :
    (k : List ℕ) (xs ys : List Sample)
    → ((q : List ℕ) → tally q xs ≡ tally q ys)
    → (q : List ℕ) → tally q (without k xs) ≡ tally q (without k ys)
same_without k xs ys h q = elim (Bool-cases (list_eq k q)) [
  | inl same ↦ rw (← list_eq_sound k q same, tally-without k xs, tally-without k ys) refl
  | inr other ↦ rw (tally-without_other k q xs other, tally-without_other k q ys other) (h q)
]

nothing :
    (ys : List Sample) → ((k : List ℕ) → tally k [] ≡ tally k ys) → (k : List ℕ) → tally k ys ≡ 0
unfolding tally
nothing ys same k = omega (arith, same k)

length-without_head :
    (s : Sample) (ss : List Sample) → length (without s.stack (s ∷ ss)) ≤ length ss
unfolding without
length-without_head s ss = rw (list_eq_refl s.stack) (length-without s.stack ss)

same_tallies :
    (n : ℕ) (test : List ℕ → Bool) (xs ys : List Sample)
    → length xs ≤ n
    → ((k : List ℕ) → tally k xs ≡ tally k ys)
    → matching test xs ≡ matching test ys
same_tallies n test [] ys h same =
    matching-none test [] (nothing [] (λ q. refl)) ∙ sym (matching-none test ys (nothing ys same))
same_tallies zero test (s ∷ xs) ys h same = absurd (omega arith)
same_tallies (suc n) test (s ∷ xs) ys h same =
    let k = s.stack in
    let shorter : length (without k (s ∷ xs)) ≤ n = omega (arith, length-without_head s xs) in
    ground (
      arith,
      same k,
      matching-without test k (s ∷ xs),
      matching-without test k ys,
      same_tallies n test (without k (s ∷ xs)) (without k ys) shorter
          (same_without k (s ∷ xs) ys same),
    )

-- Lists of samples with the same tallies have the same sums.
pub matching-tally :
    (test : List ℕ → Bool) (xs ys : List Sample)
    → ((k : List ℕ) → tally k xs ≡ tally k ys)
    → matching test xs ≡ matching test ys
matching-tally test xs ys same = same_tallies (length xs) test xs ys (omega arith) same

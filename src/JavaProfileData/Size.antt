-- ===== src/JavaProfileData/Size.antt =====
-- How many locations the reader of JavaProfileData.java makes.
use javaprofiler.Base.{
  ℕ, ◌+◌, ◌*◌, ◌≤◌, Option-cases, inl, inr, List, [], ◌∷◌, length, length-append, All, arith,
}
use javaprofiler.ProfileData.{max_stack_depth}
use javaprofiler.ProfileData.Sample.{Sample, IsSample}
use javaprofiler.Reader.Samples.{after_samples}
use javaprofiler.JavaProfileData.{JavaLocation, JavaProfileData, find_index, number}
use javaprofiler.JavaProfileData.Resolve.{location, number_slots, java_observe}

number-size :
    (l : JavaLocation) (d : JavaProfileData)
    → length (number l d).1.locations ≤ length d.locations + 1
unfolding number
number-size l d = elim (Option-cases (find_index l d.location_to_index)) [
  | inr (i, old) ↦ rw (number, old) (omega arith)
  | inl new ↦ rw (number, new) (omega (arith, length-append d.locations (l ∷ [])))
]

number_slots-size :
    (slots : List ℕ) (d : JavaProfileData)
    → length (number_slots slots d).1.locations ≤ length d.locations + length slots
unfolding number_slots
number_slots-size [] d = omega arith
number_slots-size (m ∷ []) d = omega arith
number_slots-size (m ∷ w ∷ slots) d =
    omega (arith, number-size (location m w) d, number_slots-size slots (number (location m w) d).1)

pub after_samples-size :
    (log : List Sample) (d : JavaProfileData)
    → All IsSample log
    → length (after_samples java_observe log d).locations
      ≤ length d.locations + max_stack_depth * length log
unfolding after_samples
after_samples-size [] d v = omega arith
after_samples-size (s ∷ log) d v =
    omega (
      arith,
      v.0.shallow,
      number_slots-size s.stack d,
      after_samples-size log (java_observe s d) v.1,
    )

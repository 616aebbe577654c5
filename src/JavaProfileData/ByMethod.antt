-- ===== src/JavaProfileData/ByMethod.antt =====
-- The cumulative profile of methods that the Java side makes of a finished profile.
pub mod Exact
use javaprofiler.Base.{
  ℕ, zero, suc, ◌+◌, ◌*◌, ◌%◌, ◌^◌, ◌≤◌, ◌<◌, ◌≡◌, refl, sym, ap, ◌∙◌, ℤ, pos, to_int, to_word,
  Bool, Bool-cases, true, false, ◌||◌, inl, inr, Option, none, some, List, [], ◌∷◌, ◌++◌, length,
  get_elem?, All, arith, if◌then◌else◌, list_eq, list_eq_refl,
}
use mathlib.Core.List.{map}
use javaprofiler.ProfileData.Sample.{Sample}
use javaprofiler.ProfileData.Tally.{tally}
use javaprofiler.Reader.{Observation}
use javaprofiler.Reader.Samples.{to_int-small}
use javaprofiler.Reader.SelfCount.{small_word}
use javaprofiler.Reader.Totals.{matching}
use javaprofiler.Reader.Analyze.{LocationInfo, ◌>>=◌}
use javaprofiler.Reader.Reduce.{contains}
use javaprofiler.Reader.Reduce.Profiles.{IsNamed, count_with}
use javaprofiler.JavaProfileData.{JavaLocation, JavaProfileData}
use javaprofiler.JavaProfileData.Resolve.{Resolves, Resolved}
use javaprofiler.JavaProfileData.SourceLine.{
  Natives, MethodName, name_location, name_found, location_at, get_method_name,
}

-- The text of the name of a location, without a line. `show` makes the text of a name.
unfoldable pub java_name :
    Natives → (MethodName → List ℕ) → JavaProfileData → LocationInfo → Option (List ℕ)
java_name natives show d l = get_method_name natives l.pc false d >>= λ n. some (show n)

get_elem?-lt :
    (ls : List JavaLocation) (i : ℕ) (l : JavaLocation) → get_elem? ls i ≡ some l → i < length ls
unfolding get_elem?
get_elem?-lt [] i l h = cc
get_elem?-lt (k ∷ ls) zero l h = omega arith
get_elem?-lt (k ∷ ls) (suc i) l h = omega (arith, get_elem?-lt ls i l h)

module _ (text : ℕ → List ℕ) where
  abbrev text_of : Option JavaLocation → List ℕ
  text_of none = []
  text_of (some l) = text l.methodid

  abbrev pub text_at : List JavaLocation → ℕ → List ℕ
  text_at ls i = text_of (get_elem? ls i)

  -- Some frame of the stack is of a method with that text.
  unfoldable pub has_method : List ℕ → List ℕ → Bool
  has_method q [] = false
  has_method q (m ∷ []) = false
  has_method q (m ∷ w ∷ slots) = list_eq (text m) q || has_method q slots

  -- How many stacks have one.
  unfoldable pub with_method : List ℕ → List (List ℕ) → ℕ
  with_method q [] = 0
  with_method q (s ∷ stacks) = (if has_method q s then 1 else 0) + with_method q stacks

  contains-has_method :
      (ls : List JavaLocation) (q is slots : List ℕ)
      → Resolves ls is slots
      → contains (map (text_at ls) is) q ≡ has_method q slots
  unfolding contains has_method
  contains-has_method ls q [] slots r = rw r refl
  contains-has_method ls q (i ∷ is) slots (l, rest, found, same, r) =
      rw (found, same)
        (ap (λ (b : Bool). list_eq (text l.methodid) q || b) (contains-has_method ls q is rest r))

  count_with-matching :
      (ls : List JavaLocation) (q : List ℕ) (os : List Observation) (log : List Sample)
      → Resolved ls os log
      → ((k : List ℕ) → tally k log < 2 ^ 31)
      → count_with (text_at ls) q os ≡ matching (has_method q) log
  unfolding count_with matching tally
  count_with-matching ls q [] [] r h = refl
  count_with-matching ls q [] (s ∷ log) r h = absurd r
  count_with-matching ls q (o ∷ os) [] r h = absurd r
  count_with-matching ls q (o ∷ os) (s ∷ log) r h =
      let small : s.count < 2 ^ 31 = ground (arith, h s.stack, list_eq_refl s.stack) in
      let later = count_with-matching ls q os log r.2 (λ k. omega (arith, h k)) in
      rw (contains-has_method ls q o.stack s.stack r.0, r.1, small_word s.count small, later) refl

module _ (natives : Natives) (show : MethodName → List ℕ) (text : ℕ → List ℕ) where
  -- The method has that text.
  abbrev pub IsKnown : ℕ → Type 0
  IsKnown m =
      (line : ℤ)
      → (n : MethodName) × (name_location natives false (record { methodid = m; line = line })
            (natives.method_info m)
          ≡ some n)
        × (show n ≡ text m)

  -- Every method of a stack of frames.
  abbrev pub AreKnown : List ℕ → Type 0
  AreKnown [] = Unit {0}
  AreKnown (m ∷ []) = Unit {0}
  AreKnown (m ∷ w ∷ slots) = IsKnown m × AreKnown slots

  module _ (d : JavaProfileData) (few : length d.locations < 2 ^ 31) where
    location-IsNamed :
        (i : ℕ) (l : JavaLocation)
        → get_elem? d.locations i ≡ some l
        → IsKnown l.methodid
        → IsNamed (java_name natives show d) (text_at text d.locations) i
    unfolding java_name get_method_name location_at name_found
    location-IsNamed i l found known info same =
        let (n, named, shown) = known l.line in
        let small : i < 2 ^ 31 = omega (arith, get_elem?-lt d.locations i l found) in
        rw (same, to_int-small i small, found, named) (ap some shown)

    stack-IsNamed :
        (is slots : List ℕ)
        → Resolves d.locations is slots
        → AreKnown slots
        → All (IsNamed (java_name natives show d) (text_at text d.locations)) is
    stack-IsNamed [] slots r v = tt
    stack-IsNamed (i ∷ is) slots (l, rest, found, same, r) v =
        let w = rw same at v in (location-IsNamed i l found w.0, stack-IsNamed is rest r w.1)

    observations-IsNamed :
        (os : List Observation) (log : List Sample)
        → Resolved d.locations os log
        → All (λ (s : Sample). AreKnown s.stack) log
        → All
            (λ (o : Observation).
              All (IsNamed (java_name natives show d) (text_at text d.locations)) o.stack)
            os
    observations-IsNamed [] [] r v = tt
    observations-IsNamed [] (s ∷ log) r v = absurd r
    observations-IsNamed (o ∷ os) [] r v = absurd r
    observations-IsNamed (o ∷ os) (s ∷ log) r v =
        (stack-IsNamed o.stack s.stack r.0 v.0, observations-IsNamed os log r.2 v.1)

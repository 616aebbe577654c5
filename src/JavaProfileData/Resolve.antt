-- ===== src/JavaProfileData/Resolve.antt =====
-- What the arrays of numbers that JavaProfileData.java keeps stand for.
use javaprofiler.Base.{
  ℕ, suc, ◌*◌, ◌/◌, ◌%◌, ◌≡◌, refl, sym, ap, ◌∙◌, to_int, to_word, some, List, [], ◌∷◌, ◌++◌,
  append-nil, append_assoc, length, get_elem?, All, arith, ◌==◌, true, subst,
}
use javaprofiler.Slot.{encode, IsSlot}
use javaprofiler.ProfileData.Sample.{Sample, IsSample}
use javaprofiler.Reader.{Observation, record_sample}
use javaprofiler.Reader.Slots.{read_slot-encode}
use javaprofiler.Reader.Samples.{after_samples, Reads, to_int-small}
use javaprofiler.JavaProfileData.{
  JavaLocation, JavaProfileData, number, read_locations, recorded, read_java_sample,
}
use javaprofiler.JavaProfileData.Numbering.{IsNumbered, Grows, number_lem}

-- A stack of frames: pairs of a method and a line, which is an `int` in a 64-bit slot.
abbrev pub IsFrames : List ℕ → Type 0
IsFrames [] = Unit {0}
IsFrames (m ∷ []) = ⊥
IsFrames (m ∷ w ∷ slots) = (to_word (to_int w) ≡ w) × IsFrames slots

-- The locations of a stack.
abbrev pub location : ℕ → ℕ → JavaLocation
location m w = record { methodid = m; line = to_int w }

-- The loop over the pairs, on the slots.
unfoldable pub number_slots : List ℕ → JavaProfileData → List ℕ × JavaProfileData
number_slots [] d = ([], d)
number_slots (m ∷ []) d = ([], d)
number_slots (m ∷ w ∷ slots) d =
    let (i, d₁) = number (location m w) d in
    let (sample, d₂) = number_slots slots d₁ in (i ∷ sample, d₂)

abbrev pub java_observe : Sample → JavaProfileData → JavaProfileData
java_observe s d = let (sample, d') = number_slots s.stack d in recorded sample s.count d'

-- The number of pairs.
unfoldable pub frames : List ℕ → ℕ
frames [] = 0
frames (m ∷ []) = 0
frames (m ∷ w ∷ slots) = suc (frames slots)

length-frames : (slots : List ℕ) → IsFrames slots → length slots ≡ 2 * frames slots
unfolding frames
length-frames [] v = omega arith
length-frames (m ∷ []) v = absurd v
length-frames (m ∷ w ∷ slots) v = omega (arith, length-frames slots v.1)

read_locations-encode :
    (slots rest : List ℕ) (d : JavaProfileData)
    → IsFrames slots
    → All IsSlot slots
    → read_locations (frames slots) d (encode (slots ++ rest))
      ≡ ((number_slots slots d).0, (number_slots slots d).1, encode rest)
unfolding frames read_locations number_slots
read_locations-encode [] rest d v words = refl
read_locations-encode (m ∷ []) rest d v words = absurd v
read_locations-encode (m ∷ w ∷ slots) rest d v words = rw (
  read_slot-encode m (w ∷ (slots ++ rest)) words.0,
  read_slot-encode w (slots ++ rest) words.1.0,
  read_locations-encode slots rest (number (location m w) d).1 v.1 words.1.1,
)

pub java_sample-Reads :
    (s : Sample) → IsSample s → IsFrames s.stack → Reads read_java_sample java_observe s
unfolding read_java_sample
java_sample-Reads s v f d rest =
    let n = frames s.stack in
    let size = length-frames s.stack f in
    let half : length s.stack / 2 ≡ n = omega (arith, size) in
    let even : (length s.stack % 2 == 0) ≡ true = ground (arith, size) in
    rw
      (
        to_int-small (length s.stack) (omega (arith, v.shallow)),
        even,
        half,
        read_locations-encode s.stack rest d f v.words,
      )
      refl

-- The numbers `is` stand for the slots, by the list of locations.
abbrev pub Resolves : List JavaLocation → List ℕ → List ℕ → Type 0
Resolves ls [] slots = slots ≡ []
Resolves ls (i ∷ is) slots =
    (l : JavaLocation) × (rest : List ℕ) × (get_elem? ls i ≡ some l)
    × (slots ≡ l.methodid ∷ to_word l.line ∷ rest)
    × Resolves ls is rest

Resolves-Grows :
    (d d' : JavaProfileData) (is slots : List ℕ)
    → Grows d d'
    → Resolves d.locations is slots
    → Resolves d'.locations is slots
Resolves-Grows d d' [] slots g r = r
Resolves-Grows d d' (i ∷ is) slots g (l, rest, found, same, r) =
    (l, rest, g i l found, same, Resolves-Grows d d' is rest g r)

-- What the loop over the pairs gives.
record Numbered (slots : List ℕ) (d : JavaProfileData) (r : List ℕ × JavaProfileData) : Type 0 where
  numbered : IsNumbered r.1
  resolves : Resolves r.1.locations r.0 slots
  grows : Grows d r.1
  kept : r.1.observations ≡ d.observations

number_slots-Numbered :
    (slots : List ℕ) (d : JavaProfileData)
    → IsFrames slots
    → IsNumbered d
    → Numbered slots d (number_slots slots d)
unfolding number_slots
number_slots-Numbered [] d f v = record {
  numbered = v;
  resolves = refl;
  grows = λ i l h. h;
  kept = refl;
}
number_slots-Numbered (m ∷ []) d f v = absurd f
number_slots-Numbered (m ∷ w ∷ slots) d f v =
    let first = number_lem (location m w) d v in
    let d₁ = (number (location m w) d).1 in
    let later = number_slots-Numbered slots d₁ f.1 first.numbered in
    record {
      numbered = later.numbered;
      resolves = (
        location m w,
        slots,
        later.grows _ _ first.here,
        ap (λ (x : ℕ). m ∷ x ∷ slots) (sym f.0),
        later.resolves,
      );
      grows = λ i l h. later.grows i l (first.grows i l h);
      kept = later.kept ∙ first.kept;
    }

-- Each observation stands for the sample at the same place.
abbrev pub Resolved : List JavaLocation → List Observation → List Sample → Type 0
Resolved ls [] [] = Unit {0}
Resolved ls [] (s ∷ log) = ⊥
Resolved ls (o ∷ os) [] = ⊥
Resolved ls (o ∷ os) (s ∷ log) =
    Resolves ls o.stack s.stack × (o.count ≡ to_int s.count) × Resolved ls os log

Resolved-Grows :
    (d d' : JavaProfileData) (os : List Observation) (log : List Sample)
    → Grows d d'
    → Resolved d.locations os log
    → Resolved d'.locations os log
Resolved-Grows d d' [] [] g r = tt
Resolved-Grows d d' [] (s ∷ log) g r = absurd r
Resolved-Grows d d' (o ∷ os) [] g r = absurd r
Resolved-Grows d d' (o ∷ os) (s ∷ log) g r =
    (Resolves-Grows d d' o.stack s.stack g r.0, r.1, Resolved-Grows d d' os log g r.2)

Resolved-snoc :
    (ls : List JavaLocation) (os : List Observation) (log : List Sample) (o : Observation)
    (s : Sample)
    → Resolved ls os log
    → Resolves ls o.stack s.stack
    → o.count ≡ to_int s.count
    → Resolved ls (os ++ o ∷ []) (log ++ s ∷ [])
Resolved-snoc ls [] [] o s r h e = (h, e, tt)
Resolved-snoc ls [] (t ∷ log) o s r h e = absurd r
Resolved-snoc ls (p ∷ os) [] o s r h e = absurd r
Resolved-snoc ls (p ∷ os) (t ∷ log) o s r h e = (r.0, r.1, Resolved-snoc ls os log o s r.2 h e)

-- The object stands for the samples that it has read.
pub record StandsFor (log : List Sample) (d : JavaProfileData) : Type 0 where
  pub numbered : IsNumbered d
  pub resolved : Resolved d.locations d.observations log

java_observe-StandsFor :
    (s : Sample) (log : List Sample) (d : JavaProfileData)
    → IsFrames s.stack
    → StandsFor log d
    → StandsFor (log ++ s ∷ []) (java_observe s d)
unfolding record_sample
java_observe-StandsFor s log d f v =
    let n = number_slots-Numbered s.stack d f v.numbered in
    let (sample, d') = number_slots s.stack d in
    let earlier : Resolved d'.locations d'.observations log =
      rw n.kept (Resolved-Grows d d' d.observations log n.grows v.resolved) in
    record {
      numbered = record { found = n.numbered.found; known = n.numbered.known };
      resolved =
          Resolved-snoc d'.locations d'.observations log
            (record { stack = sample; count = to_int s.count }) s earlier n.resolves refl;
    }

pub after_samples-StandsFor :
    (log before : List Sample) (d : JavaProfileData)
    → All (λ (s : Sample). IsFrames s.stack) log
    → StandsFor before d
    → StandsFor (before ++ log) (after_samples java_observe log d)
unfolding after_samples
after_samples-StandsFor [] before d f v = rw (append-nil before) v
after_samples-StandsFor (s ∷ log) before d f v =
    subst (λ l. StandsFor l (after_samples java_observe log (java_observe s d)))
      (append_assoc before (s ∷ []) log)
      (after_samples-StandsFor log (before ++ s ∷ []) (java_observe s d) f.1
        (java_observe-StandsFor s before d f.0 v))

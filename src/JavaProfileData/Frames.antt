-- ===== src/JavaProfileData/Frames.antt =====
-- What the reader of JavaProfileData.java finds in a finished profile.
use javaprofiler.Base.{
  ℕ, ◌+◌, ◌*◌, ◌^◌, ◌≤◌, ◌<◌, ◌≡◌, ◌≢◌, inl, inr, refl, sym, ap, ◌∙◌, ℤ, to_word, Bool-cases,
  Option, none, some, List, [], ◌∷◌, length, get_elem?, All, arith, if◌then◌else◌, list_eq,
  list_eq_refl, list_eq_sound, pos_part, subst,
}
use javaprofiler.ProfileData.{World, max_stack_depth}
use javaprofiler.ProfileData.Sample.{Sample, IsSample}
use javaprofiler.ProfileData.Tally.{tally, occurs, occurs-le-length}
use javaprofiler.ProfileData.Tracks.Control.{Finished}
use javaprofiler.Reader.{done, Observation}
use javaprofiler.Reader.Samples.{after_samples, Reads}
use javaprofiler.Reader.RoundTrip.{read-file, to_int-pos}
use javaprofiler.JavaProfileData.{
  JavaLocation, JavaProfileData, new_data, read_java_sample, read_java_file,
}
use javaprofiler.JavaProfileData.Numbering.{IsNumbered, new_data-IsNumbered}
use javaprofiler.JavaProfileData.Resolve.{
  IsFrames, java_observe, java_sample-Reads, Resolves, Resolved, after_samples-StandsFor,
}
use javaprofiler.JavaProfileData.Size.{after_samples-size}

-- One more location in front, if its number has one.
unfoldable pub in_front : Option JavaLocation → Option (List ℕ) → Option (List ℕ)
in_front none slots = none
in_front (some l) none = none
in_front (some l) (some slots) = some (l.methodid ∷ to_word l.line ∷ slots)

-- The slots of the locations that an array of numbers stands for.
unfoldable pub resolve : List JavaLocation → List ℕ → Option (List ℕ)
resolve ls [] = some []
resolve ls (i ∷ is) = in_front (get_elem? ls i) (resolve ls is)

-- The count that an observation gives to the stack of slots `k`.
unfoldable pub frame_weight : List ℕ → Option (List ℕ) → ℤ → ℕ
frame_weight k none count = 0
frame_weight k (some slots) count = if list_eq slots k then pos_part count else 0

unfoldable pub frames_observed : List ℕ → List JavaLocation → List Observation → ℕ
frames_observed k ls [] = 0
frames_observed k ls (o ∷ os) =
    frame_weight k (resolve ls o.stack) o.count + frames_observed k ls os

-- Every number in an observation is that of a location.
abbrev pub AllResolve : List JavaLocation → List Observation → Type 0
AllResolve ls os = All (λ (o : Observation). resolve ls o.stack ≢ none) os

resolve-Resolves :
    (ls : List JavaLocation) (is slots : List ℕ) → Resolves ls is slots → resolve ls is ≡ some slots
unfolding resolve in_front
resolve-Resolves ls [] slots r = ap some (sym r)
resolve-Resolves ls (i ∷ is) slots (l, rest, found, same, r) =
    rw (found, resolve-Resolves ls is rest r) (ap some (sym same))

Resolved-AllResolve :
    (ls : List JavaLocation) (os : List Observation) (log : List Sample)
    → Resolved ls os log
    → AllResolve ls os
Resolved-AllResolve ls [] [] r = tt
Resolved-AllResolve ls [] (s ∷ log) r = tt
Resolved-AllResolve ls (o ∷ os) [] r = absurd r
Resolved-AllResolve ls (o ∷ os) (s ∷ log) r = (
  rw (resolve-Resolves ls o.stack s.stack r.0) (λ e. absurd (ground arith)),
  Resolved-AllResolve ls os log r.2,
)

-- Counts below 2 ^ 31 survive the narrowing to `int`.
frames_observed-Resolved :
    (k : List ℕ) (ls : List JavaLocation) (os : List Observation) (log : List Sample)
    → Resolved ls os log
    → ((q : List ℕ) → tally q log < 2 ^ 31)
    → frames_observed k ls os ≡ tally k log
unfolding frames_observed frame_weight tally
frames_observed-Resolved k ls [] [] r h = refl
frames_observed-Resolved k ls [] (s ∷ log) r h = absurd r
frames_observed-Resolved k ls (o ∷ os) [] r h = absurd r
frames_observed-Resolved k ls (o ∷ os) (s ∷ log) r h =
    let small : s.count < 2 ^ 31 = ground (arith, h s.stack, list_eq_refl s.stack) in
    let later = frames_observed-Resolved k ls os log r.2 (λ q. omega (arith, h q)) in
    rw (resolve-Resolves ls o.stack s.stack r.0, r.1, to_int-pos s.count small, later) refl

-- A logged stack is one that was sampled.
logged-occurs :
    (P : List ℕ → Type 0) (k : List ℕ) (stacks : List (List ℕ))
    → All P stacks
    → 0 < occurs k stacks
    → P k
unfolding occurs
logged-occurs P k [] v h = absurd (omega arith)
logged-occurs P k (s ∷ stacks) v h = elim (Bool-cases (list_eq s k)) [
  | inl same ↦ subst P (list_eq_sound s k same) v.0
  | inr other ↦ logged-occurs P k stacks v.1 (ground (arith, h, other))
]

logged-All :
    (P : List ℕ → Type 0) (log : List Sample) (stacks : List (List ℕ))
    → All P stacks
    → All IsSample log
    → ((k : List ℕ) → tally k log ≤ occurs k stacks)
    → All (λ (s : Sample). P s.stack) log
unfolding tally
logged-All P [] stacks v w h = tt
logged-All P (s ∷ log) stacks v w h = (
  logged-occurs P s.stack stacks v (ground (arith, h s.stack, list_eq_refl s.stack, w.0.counted)),
  logged-All P log stacks v w.1 (λ k. omega (arith, h k)),
)

-- What the Java reader finds in a file: the numbers and the locations are inverse to one another,
-- every number in an observation has its location, and every stack of frames has its exact number of
-- samples.
pub record IsRead (stacks : List (List ℕ)) (d : JavaProfileData) : Type 0 where
  pub numbered : IsNumbered d
  pub resolves : AllResolve d.locations d.observations
  pub counted : (k : List ℕ) → frames_observed k d.locations d.observations ≡ occurs k stacks

abbrev pub ReadsFrames : List (List ℕ) → List ℕ → Type 0
ReadsFrames stacks bytes = (d : JavaProfileData) × (read_java_file bytes ≡ done d) × IsRead stacks d

log-Reads :
    (log : List Sample)
    → All IsSample log
    → All (λ (s : Sample). IsFrames s.stack) log
    → All (Reads read_java_sample java_observe) log
log-Reads [] v f = tt
log-Reads (s ∷ log) v f = (java_sample-Reads s v.0 f.0, log-Reads log v.1 f.1)

fresh : Resolved new_data.locations new_data.observations []
unfolding new_data
fresh = tt

-- What the Java reader finds in a finished file, next to the log that the file has.
abbrev pub ReadsLog : List Sample → List ℕ → Type 0
ReadsLog log bytes =
    (d : JavaProfileData) × (read_java_file bytes ≡ done d)
    × IsNumbered d
    × Resolved d.locations d.observations log
    × (length d.locations ≤ max_stack_depth * length log)

pub Finished-IsFrames :
    (path : List ℕ) (frequency : ℤ) (stacks : List (List ℕ)) (w : World)
    (f : Finished path frequency stacks w) (P : List ℕ → Type 0)
    → All P stacks
    → All (λ (s : Sample). P s.stack) f.log
Finished-IsFrames path frequency stacks w f P v =
    logged-All P f.log stacks v f.logged (λ k. omega (arith, f.exact k))

pub Finished-ReadsLog :
    (path : List ℕ) (frequency : ℤ) (stacks : List (List ℕ)) (w : World)
    (f : Finished path frequency stacks w)
    → All IsFrames stacks
    → ReadsLog f.log (w.os.files path)
unfolding read_java_file new_data
Finished-ReadsLog path frequency stacks w f v =
    let framed = Finished-IsFrames path frequency stacks w f IsFrames v in
    let d = after_samples java_observe f.log new_data in
    let s =
      after_samples-StandsFor f.log [] new_data framed
        (record { numbered = new_data-IsNumbered; resolved = fresh }) in
    (
      d,
      rw f.contents (
          read-file read_java_sample java_observe frequency f.log new_data f.logged
            (log-Reads f.log f.logged framed)),
      s.numbered,
      s.resolved,
      omega (arith, after_samples-size f.log new_data f.logged),
    )

pub Finished-ReadsFrames :
    (path : List ℕ) (frequency : ℤ) (stacks : List (List ℕ)) (w : World)
    → Finished path frequency stacks w
    → length stacks < 2 ^ 31
    → All IsFrames stacks
    → ReadsFrames stacks (w.os.files path)
Finished-ReadsFrames path frequency stacks w f few v =
    let (d, run, numbered, resolved, _) = Finished-ReadsLog path frequency stacks w f v in
    let small : (q : List ℕ) → tally q f.log < 2 ^ 31 =
      λ q. omega (arith, f.exact q, occurs-le-length q stacks) in
    (
      d,
      run,
      record {
        numbered = numbered;
        resolves = Resolved-AllResolve d.locations d.observations f.log resolved;
        counted = λ k.
            frames_observed-Resolved k d.locations d.observations f.log resolved small ∙ f.exact k;
      },
    )

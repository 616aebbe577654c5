-- ===== src/Reader/RoundTrip.antt =====
-- From the calls of `Add` in profiledata.cc to the observations of ProfileData.java.
use javaprofiler.Base.{
  ℕ, ◌+◌, ◌≤◌, ◌<◌, ◌≡◌, ◌≢◌, refl, ap, ◌∙◌, ℤ, pos, to_int, to_word, to_word-lt, List, [], ◌∷◌,
  ◌++◌, length, length-append, All, arith, false, if◌then◌else◌, ◌^◌, list_eq, list_eq_refl, some,
  pos_part, take,
}
use javaprofiler.Slot.{encode, length-encode}
use javaprofiler.ProfileData.{header, period, World, enabled}
use javaprofiler.ProfileData.Sample.{Sample, sample_slots, samples_slots, IsSample}
use javaprofiler.ProfileData.Tally.{tally, occurs, occurs-le-length}
use javaprofiler.ProfileData.Tracks.Control.{trailer, Finished}
use javaprofiler.ProfileData.Session.{Call, samples, flushes, session, added}
use javaprofiler.ProfileData.Session.Exact.{IsValid, session-Finished}
use javaprofiler.ProfileData.Add.{limit_depth}
use javaprofiler.Os.{open_answer}
use javaprofiler.Os.FdWrite.{IsReliable}
use javaprofiler.Run.{Returns}
use javaprofiler.Reader.{SampleReader, read_sample, done, Observation, read, read_file}
use javaprofiler.Reader.Slots.{read_slot-encode, read_slots-encode}
use javaprofiler.Reader.Samples.{
  observations, read_loop-encode, Reads, after_samples, observe, after_samples-observe,
  read_sample-Reads,
}

-- A finished file reads back as its samples, through any `readSample` that reads them.
module _ {S : Type 0} (sampler : SampleReader S) (next : Sample → S → S) (log : List Sample) where
  read-encode :
      (fuel : ℕ) (frequency : ℤ) (state : S)
      → length log < fuel
      → All IsSample log
      → All (Reads sampler next) log
      → read sampler fuel state (encode (header frequency ++ samples_slots log ++ trailer))
        ≡ done (after_samples next log state)
  unfolding read
  read-encode fuel frequency state h v reads =
      let rest = samples_slots log ++ trailer in
      let p = to_word (period frequency) in
      rw
        (
          read_slot-encode 0 (3 ∷ 0 ∷ p ∷ 0 ∷ rest) (omega arith),
          read_slot-encode 3 (0 ∷ p ∷ 0 ∷ rest) (omega arith),
          read_slot-encode 0 (p ∷ 0 ∷ rest) (omega arith),
          read_slot-encode p (0 ∷ rest) (to_word-lt (period frequency)),
          read_slot-encode 0 rest (omega arith),
          read_slots-encode [] rest tt,
        )
        (read_loop-encode sampler next fuel log state h v reads)

length-samples_slots : (log : List Sample) → length log ≤ length (samples_slots log)
unfolding samples_slots
length-samples_slots [] = omega arith
length-samples_slots (s ∷ log) =
    omega (arith, length-append (sample_slots s) (samples_slots log), length-samples_slots log)

-- One more turn than the file has bytes is enough.
pub read-file :
    {S : Type 0} (sampler : SampleReader S) (next : Sample → S → S) (frequency : ℤ)
    (log : List Sample) (state : S)
    → All IsSample log
    → All (Reads sampler next) log
    → read sampler
        (1 + length (encode (header frequency ++ samples_slots log ++ trailer)))
        state
        (encode (header frequency ++ samples_slots log ++ trailer))
      ≡ done (after_samples next log state)
read-file sampler next frequency log state v reads =
    let slots = header frequency ++ samples_slots log ++ trailer in
    read-encode sampler next log (1 + length (encode slots)) frequency state
      (omega (
        arith,
        length-encode slots,
        length-append (samples_slots log) trailer,
        length-samples_slots log,
      ))
      v reads

-- A file of the header, well-formed samples and the end of data marker reads back as one
-- observation for each sample, in order, for every frequency.
pub read_file-encode :
    (frequency : ℤ) (log : List Sample)
    → All IsSample log
    → read_file (encode (header frequency ++ samples_slots log ++ trailer))
      ≡ done (observations log)
unfolding read_file
read_file-encode frequency log v =
    read-file read_sample observe frequency log [] v (read_sample-Reads log v)
    ∙ ap done (after_samples-observe log [])

-- The count that a list of observations gives the stack `k`.
unfoldable pub observed : List ℕ → List Observation → ℕ
observed k [] = 0
observed k (o ∷ os) = (if list_eq o.stack k then pos_part o.count else 0) + observed k os

pub to_int-pos : (n : ℕ) → n < 2 ^ 31 → pos_part (to_int n) ≡ n
unfolding to_int
to_int-pos n h = ground arith

-- Counts below 2 ^ 31 survive the narrowing to `int`.
pub observed-observations :
    (k : List ℕ) (log : List Sample)
    → ((q : List ℕ) → tally q log < 2 ^ 31)
    → observed k (observations log) ≡ tally k log
unfolding observed observations tally
observed-observations k [] h = refl
observed-observations k (s ∷ log) h =
    let small : s.count < 2 ^ 31 = ground (arith, h s.stack, list_eq_refl s.stack) in
    ground (arith, to_int-pos s.count small, observed-observations k log (λ q. omega (arith, h q)))

pub length-added :
    (calls : List Call) (acc : List (List ℕ)) → length (added calls acc) ≤ length calls + length acc
unfolding added
length-added [] acc = omega arith
length-added (samples depth stack ∷ cs) acc =
    omega (arith, length-added cs (take (limit_depth depth) stack ∷ acc))
length-added (flushes ∷ cs) acc = omega (arith, length-added cs acc)

-- What the reader finds in a file: for every stack its exact number of samples.
abbrev pub ReadsBack : List (List ℕ) → List ℕ → Type 0
ReadsBack stacks bytes =
    (obs : List Observation) × (read_file bytes ≡ done obs)
    × ((k : List ℕ) → observed k obs ≡ occurs k stacks)

pub Finished-ReadsBack :
    (path : List ℕ) (frequency : ℤ) (stacks : List (List ℕ)) (w : World)
    → Finished path frequency stacks w
    → length stacks < 2 ^ 31
    → ReadsBack stacks (w.os.files path)
Finished-ReadsBack path frequency stacks w f few = (
  observations f.log,
  rw f.contents (read_file-encode frequency f.log f.logged),
  λ k.
      observed-observations k f.log (λ q. omega (arith, f.exact q, occurs-le-length q stacks))
      ∙ f.exact k,
)

-- A session of Start on a disabled collector with a frequency that is not zero, fewer than 2 ^ 31
-- calls of Add and FlushTable in any order, and Stop, whose file opens, whose writes do not fail
-- and whose calls of Add have a positive depth and an array of 64-bit slots that reaches as far,
-- returns, and the Java reader gets from the file for every stack exactly the number of times that
-- it was added, with stacks cut to 64 slots.
pub session-ReadsBack :
    (path : List ℕ) (frequency : ℤ) (calls : List Call) (w : World) (fd : ℕ)
    → enabled w ≡ false
    → open_answer w.os.opens ≡ some fd
    → frequency ≢ pos 0
    → IsReliable w.os.writes
    → All IsValid calls
    → length calls < 2 ^ 31
    → Returns (session path frequency calls w) λ w'. ReadsBack (added calls []) (w'.os.files path)
session-ReadsBack path frequency calls w fd off answer nonzero reliable valid few =
    let (w', run, f) =
      session-Finished path frequency calls w fd off answer nonzero reliable valid (omega arith) in
    (
      w',
      run,
      Finished-ReadsBack path frequency (added calls []) w' f
          (omega (arith, length-added calls [])),
    )

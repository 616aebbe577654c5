-- ===== src/Reader/Samples.antt =====
-- `readSample` of ProfileData.java on the samples of a finished profile.
use javaprofiler.Base.{
  ℕ, zero, suc, ◌<◌, ◌≡◌, refl, sym, ◌∙◌, pos, to_int, List, [], ◌∷◌, ◌++◌, append_assoc,
  append-nil, length, All, arith, false, ◌==◌, ◌&&◌, ◌^◌,
}
use javaprofiler.Slot.{encode}
use javaprofiler.ProfileData.Sample.{Sample, samples_slots, IsSample}
use javaprofiler.ProfileData.Tracks.Control.{trailer}
use javaprofiler.Reader.{SampleReader, done, Observation, record_sample, read_sample, read_loop}
use javaprofiler.Reader.Slots.{read_slot-encode, read_slots-encode}

-- What the reader makes of a sample.
abbrev pub observation : Sample → Observation
observation s = record { stack = s.stack; count = to_int s.count }

unfoldable pub observations : List Sample → List Observation
observations [] = []
observations (s ∷ ss) = observation s ∷ observations ss

pub to_int-small : (n : ℕ) → n < 2 ^ 31 → to_int n ≡ pos n
unfolding to_int
to_int-small n h = ground arith

record_cons :
    (s : Sample) (obs later : List Observation)
    → record_sample s.stack s.count obs ++ later ≡ obs ++ observation s ∷ later
unfolding record_sample
record_cons s obs later = append_assoc obs (observation s ∷ []) later

-- One turn of the loop reads one sample.
read_sample-encode :
    (s : Sample) (obs : List Observation) (rest : List ℕ)
    → IsSample s
    → read_sample s.count (length s.stack) obs (encode (s.stack ++ rest))
      ≡ done (record_sample s.stack s.count obs, encode rest)
unfolding read_sample
read_sample-encode s obs rest v = rw (
  to_int-small (length s.stack) (omega (arith, v.shallow)),
  read_slots-encode s.stack rest v.words,
)

-- The test for the end of data marker fails at a sample.
not_trailer : (s : Sample) → IsSample s → ((s.count == 0) && (length s.stack == 1)) ≡ false
not_trailer s v = ground (arith, v.counted)

-- The state after the samples of a file, one after another.
unfoldable pub after_samples : {S : Type 0} → (Sample → S → S) → List Sample → S → S
after_samples next [] state = state
after_samples next (s ∷ log) state = after_samples next log (next s state)

-- A method `readSample` that turns each sample of the file into `next` of it.
abbrev pub Reads : {S : Type 0} → SampleReader S → (Sample → S → S) → Sample → Type 0
Reads {S} sampler next s =
    (state : S) (rest : List ℕ)
    → sampler s.count (length s.stack) state (encode (s.stack ++ rest))
      ≡ done (next s state, encode rest)

module _ {S : Type 0} (sampler : SampleReader S) (next : Sample → S → S) where
  pub read_loop-encode :
      (fuel : ℕ) (log : List Sample) (state : S)
      → length log < fuel
      → All IsSample log
      → All (Reads sampler next) log
      → read_loop sampler fuel state (encode (samples_slots log ++ trailer))
        ≡ done (after_samples next log state)
  unfolding read_loop samples_slots after_samples
  read_loop-encode zero log state h v r = absurd (omega arith)
  read_loop-encode (suc fuel) [] state h v r =
      rw (read_slot-encode 0 (1 ∷ 0 ∷ []) (omega arith), read_slot-encode 1 (0 ∷ []) (omega arith))
        refl
  read_loop-encode (suc fuel) (s ∷ log) state h v r =
      let rest = samples_slots log ++ trailer in
      rw
        (
          append_assoc s.stack (samples_slots log) trailer,
          read_slot-encode s.count (length s.stack ∷ (s.stack ++ rest)) v.0.word_count,
          read_slot-encode (length s.stack) (s.stack ++ rest) (omega (arith, v.0.shallow)),
          not_trailer s v.0,
          r.0 state rest,
        )
        (read_loop-encode fuel log (next s state) (omega arith) v.1 r.1)

-- The base class adds one observation for each sample.
abbrev pub observe : Sample → List Observation → List Observation
observe s obs = record_sample s.stack s.count obs

pub after_samples-observe :
    (log : List Sample) (obs : List Observation)
    → after_samples observe log obs ≡ obs ++ observations log
unfolding after_samples observations
after_samples-observe [] obs = sym (append-nil obs)
after_samples-observe (s ∷ log) obs =
    after_samples-observe log (observe s obs) ∙ record_cons s obs (observations log)

pub read_sample-Reads : (log : List Sample) → All IsSample log → All (Reads read_sample observe) log
read_sample-Reads [] v = tt
read_sample-Reads (s ∷ log) v =
    (λ obs rest. read_sample-encode s obs rest v.0, read_sample-Reads log v.1)

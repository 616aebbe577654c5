-- ===== src/Reader.antt =====
-- `ProfileData.read` of the Java side (ProfileData.java): the reader of profile files. A Java `long`
-- is its 64-bit pattern. The stream is the list of the file's remaining bytes.
pub mod Slots
pub mod Samples
pub mod RoundTrip
pub mod Termination
pub mod Analyze
pub mod Totals
pub mod SelfCount
pub mod Reduce
use javaprofiler.Base.{
  ltb, ℕ, zero, suc, ◌+◌, ◌-◌, ◌*◌, ◌%◌, ◌^◌, ℤ, pos, negsuc, to_int, Bool, ◌&&◌, List, [], ◌∷◌,
  ◌++◌, bit_or, ◌==◌, if◌then◌else◌, length,
}

-- `new long[depth]` with a negative depth throws; `more` means that the reader goes on: the fuel ran
-- out, or a loop never ends.
pub data Read {ℓ} (A : Type ℓ) : Type ℓ where
  done : A → Read A
  exception : Read A
  more : Read A

infixl 5 ◌>>=◌
abbrev pub ◌>>=◌ {ℓ κ} : {A : Type ℓ} {B : Type κ} → Read A → (A → Read B) → Read B
done a >>= f = f a
exception >>= f = exception
more >>= f = more

-- `value |= b << (i * 8)`; `dis.read()` returns -1 at the end of the file.
unfoldable pub read_slot_from : ℕ → ℕ → ℕ → List ℕ → ℕ × List ℕ
read_slot_from zero i value bytes = (value, bytes)
read_slot_from (suc n) i value [] =
    read_slot_from n (i + 1) (bit_or value ((2 ^ 64 - 1) * 2 ^ (i * 8) % 2 ^ 64)) []
read_slot_from (suc n) i value (b ∷ bytes) =
    read_slot_from n (i + 1) (bit_or value (b * 2 ^ (i * 8) % 2 ^ 64)) bytes

unfoldable pub read_slot : List ℕ → ℕ × List ℕ
unfolding read_slot_from
read_slot bytes = read_slot_from 8 0 0 bytes

-- The loop of `readSample`, and the skipping loop of the header.
unfoldable pub read_slots : ℕ → List ℕ → List ℕ × List ℕ
read_slots zero bytes = ([], bytes)
read_slots (suc n) bytes =
    let (s, rest) = read_slot bytes in let (ss, rest') = read_slots n rest in (s ∷ ss, rest')

-- `Observation`: its count is an `int`.
pub record Observation : Type 0 where
  pub stack : List ℕ
  pub count : ℤ

-- `recordSample`. Arrays are keys by identity, and `sample` was just allocated, so the map has no
-- entry for it: an observation is added, with the count narrowed to `int`. The list keeps the
-- order of the file, which the hash map does not.
unfoldable pub record_sample : List ℕ → ℕ → List Observation → List Observation
record_sample sample sample_count observations =
    observations ++ record { stack = sample; count = to_int sample_count } ∷ []

read_sample_of : ℤ → ℕ → List Observation → List ℕ → Read (List Observation × List ℕ)
read_sample_of (negsuc n) sample_count observations bytes = exception
read_sample_of (pos depth) sample_count observations bytes =
    let (sample, rest) = read_slots depth bytes in
    done (record_sample sample sample_count observations, rest)

-- `readSample(sampleCount, (int) depth)`.
unfoldable pub read_sample : ℕ → ℕ → List Observation → List ℕ → Read (List Observation × List ℕ)
unfolding read_sample_of
read_sample sample_count depth observations bytes =
    read_sample_of (to_int depth) sample_count observations bytes

-- A class that extends `ProfileData` overrides `readSample`, so that the loop has it as an argument:
-- it takes the two slots in front of the sample, the fields of the object and the stream.
abbrev pub SampleReader : Type 0 → Type 0
SampleReader S = ℕ → ℕ → S → List ℕ → Read (S × List ℕ)

-- The `while (true)` loop of `read`.
unfoldable pub read_loop : {S : Type 0} → SampleReader S → ℕ → S → List ℕ → Read S
read_loop sampler zero state bytes = more
read_loop sampler (suc fuel) state bytes =
    let (sample_count, rest) = read_slot bytes in
    let (depth, rest') = read_slot rest in
    let next = sampler sample_count depth state rest' >>= λ r. read_loop sampler fuel r.0 r.1 in
    if sample_count == 0 && depth == 1 then done state else next

-- The turns of the loop `for (int i = 3; i < headerSlots; i++)`, with a signed 64-bit bound: `i` wraps
-- and the loop never ends if the bound is above the largest `int`.
abbrev pub skipped_slots : ℕ → Read ℕ
skipped_slots header_slots =
    if ltb header_slots (2 ^ 31)
    then done (header_slots - 3)
    else (if ltb header_slots (2 ^ 63) then more else done 0)

-- `read`: the header of `headerSlots` slots, then the loop.
unfoldable pub read : {S : Type 0} → SampleReader S → ℕ → S → List ℕ → Read S
read sampler fuel state bytes =
    let (header_count, r₁) = read_slot bytes in
    let (header_slots, r₂) = read_slot r₁ in
    let (format_version, r₃) = read_slot r₂ in
    let (sampling_period, r₄) = read_slot r₃ in
    let (padding, r₅) = read_slot r₄ in
    skipped_slots header_slots >>= λ skipped.
    let (unknown, r₆) = read_slots skipped r₅ in read_loop sampler fuel state r₆

-- The fuel is more than the number of bytes: a turn of the loop reads at least one byte, or finds
-- none left and ends in an exception.
unfoldable pub read_file : List ℕ → Read (List Observation)
read_file bytes = read read_sample (1 + length bytes) [] bytes

-- ===== src/Reader/Termination.antt =====
-- `ProfileData.read` of ProfileData.java: how far its loops go.
use javaprofiler.Base.{
  ℕ, zero, suc, ◌+◌, ◌-◌, ◌*◌, ◌%◌, ◌^◌, ◌≤◌, ◌<◌, ◌≡◌, ◌≢◌, ◌⊎◌, inl, inr, ap, refl, ℤ, pos,
  negsuc, to_int, Bool, true, false, ◌&&◌, List, [], ◌∷◌, length, bit_or, ◌==◌, ltb, if◌then◌else◌,
  arith,
}
use javaprofiler.Reader.{
  Read, SampleReader, exception, done, more, ◌>>=◌, read_slot_from, read_slot, read_slots,
  Observation, read_sample_of, read_sample, read_loop, skipped_slots, read, read_file,
}

read_slot_from-length :
    (n i value : ℕ) (bytes : List ℕ) → length (read_slot_from n i value bytes).1 ≤ length bytes
unfolding read_slot_from
read_slot_from-length zero i value bytes = omega arith
read_slot_from-length (suc n) i value [] = read_slot_from-length n _ _ []
read_slot_from-length (suc n) i value (b ∷ bytes) =
    omega (arith, read_slot_from-length n (i + 1) (bit_or value (b * 2 ^ (i * 8) % 2 ^ 64)) bytes)

pub read_slot-length : (bytes : List ℕ) → length (read_slot bytes).1 ≤ length bytes
unfolding read_slot
read_slot-length bytes = read_slot_from-length 8 0 0 bytes

-- A slot takes at least one byte, if there is one.
read_slot-shorter : (b : ℕ) (bytes : List ℕ) → length (read_slot (b ∷ bytes)).1 ≤ length bytes
unfolding read_slot read_slot_from
read_slot-shorter b bytes = read_slot_from-length 7 1 _ bytes

-- At the end of the file every slot is -1.
read_slot-eof : read_slot [] ≡ (2 ^ 64 - 1, [])
unfolding read_slot read_slot_from
read_slot-eof = refl

pub read_slots-length : (n : ℕ) (bytes : List ℕ) → length (read_slots n bytes).1 ≤ length bytes
unfolding read_slots
read_slots-length zero bytes = omega arith
read_slots-length (suc n) bytes =
    omega (arith, read_slots-length n (read_slot bytes).1, read_slot-length bytes)

pub minus_one : to_int (2 ^ 64 - 1) ≡ negsuc 0
unfolding to_int
minus_one = refl

-- A method `readSample` that throws or returns without giving bytes back, and that throws at the end
-- of the file, where it is called with a depth of -1.
pub record IsSampler {S : Type 0} (sampler : SampleReader S) : Type 0 where
  pub onward :
      (sample_count depth : ℕ) (state : S) (bytes : List ℕ)
      → (sampler sample_count depth state bytes ≡ exception)
        ⊎ ((r : S × List ℕ) × (sampler sample_count depth state bytes ≡ done r)
            × (length r.1 ≤ length bytes))
  pub at_end :
      (sample_count : ℕ) (state : S) → sampler sample_count (2 ^ 64 - 1) state [] ≡ exception

test-more :
    {S : Type 0} (b : Bool) (state : S) (next : Read S)
    → next ≢ more
    → (if b then done state else next) ≢ more
test-more true state next h = λ e. absurd (ground arith)
test-more false state next h = h

module _ {S : Type 0} (sampler : SampleReader S) (v : IsSampler sampler) where
  read_loop-ends :
      (fuel : ℕ) (state : S) (bytes : List ℕ)
      → length bytes < fuel
      → read_loop sampler fuel state bytes ≢ more
  unfolding read_loop
  read_loop-ends zero state bytes h = absurd (omega arith)
  read_loop-ends (suc fuel) state [] h =
      rw (read_slot-eof, read_slot-eof, v.at_end) (λ e. absurd (ground arith))
  read_loop-ends (suc fuel) state (b ∷ bytes) h =
      let (sample_count, rest) = read_slot (b ∷ bytes) in
      let (depth, rest') = read_slot rest in
      let shorter : length rest' ≤ length bytes =
        omega (arith, read_slot-shorter b bytes, read_slot-length rest) in
      test-more (sample_count == 0 && depth == 1) state _
        (elim (v.onward sample_count depth state rest') [
          | inl thrown ↦ rw thrown (λ e. absurd (ground arith))
          | inr (r, run, k) ↦ rw run (read_loop-ends fuel r.0 r.1 (omega (arith, shorter)))
        ])

  -- The rest of the file after the header's fixed slots.
  after_header :
      (fuel header_slots : ℕ) (state : S) (bytes : List ℕ)
      → header_slots < 2 ^ 31
      → length bytes < fuel
      → (skipped_slots header_slots >>= λ skipped.
          read_loop sampler fuel state (read_slots skipped bytes).1)
        ≢ more
  after_header fuel header_slots state bytes h k =
      let few : ltb header_slots (2 ^ 31) ≡ true = ground arith in
      rw few (
        read_loop-ends fuel state (read_slots (header_slots - 3) bytes).1
          (omega (arith, read_slots-length (header_slots - 3) bytes)))

  pub read-ends :
      (state : S) (bytes : List ℕ)
      → (read_slot (read_slot bytes).1).0 < 2 ^ 31
      → read sampler (1 + length bytes) state bytes ≢ more
  unfolding read
  read-ends state bytes h =
      let r₁ = (read_slot bytes).1 in
      let r₂ = (read_slot r₁).1 in
      let r₃ = (read_slot r₂).1 in
      let r₄ = (read_slot r₃).1 in
      after_header (1 + length bytes) (read_slot r₁).0 state (read_slot r₄).1 h (
        omega (
          arith,
          read_slot-length bytes,
          read_slot-length r₁,
          read_slot-length r₂,
          read_slot-length r₃,
          read_slot-length r₄,
        ))

read_sample-IsSampler : IsSampler read_sample
unfolding read_sample read_sample_of
read_sample-IsSampler = record {
  onward = λ sample_count depth obs bytes. by_depth (to_int depth) sample_count obs bytes;
  at_end = λ sample_count obs. at_minus_one sample_count obs;
}
  where
    by_depth :
        (d : ℤ) (sample_count : ℕ) (obs : List Observation) (bytes : List ℕ)
        → (read_sample_of d sample_count obs bytes ≡ exception)
          ⊎ ((r : List Observation × List ℕ) × (read_sample_of d sample_count obs bytes ≡ done r)
              × (length r.1 ≤ length bytes))
    by_depth (negsuc n) sample_count obs bytes = inl refl
    by_depth (pos n) sample_count obs bytes = inr (_, refl, read_slots-length n bytes)

    at_minus_one :
        (sample_count : ℕ) (obs : List Observation)
        → read_sample sample_count (2 ^ 64 - 1) obs [] ≡ exception
    at_minus_one sample_count obs = ap (λ d. read_sample_of d sample_count obs []) minus_one

-- The reader ends on every file whose header announces fewer than 2 ^ 31 slots, whatever its bytes
-- are: it returns the observations or throws.
pub read_file-ends :
    (bytes : List ℕ) → (read_slot (read_slot bytes).1).0 < 2 ^ 31 → read_file bytes ≢ more
unfolding read_file
read_file-ends bytes h = read-ends read_sample read_sample-IsSampler [] bytes h

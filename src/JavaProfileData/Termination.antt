-- ===== src/JavaProfileData/Termination.antt =====
-- The reader of JavaProfileData.java ends.
use javaprofiler.Base.{
  ℕ, zero, suc, ◌/◌, ◌%◌, ◌^◌, ◌≤◌, ◌<◌, ◌≡◌, ◌≢◌, ◌⊎◌, inl, inr, refl, ap, ℤ, pos, negsuc, to_int,
  Bool-cases, List, [], length, arith, ◌==◌, ◌-◌,
}
use javaprofiler.Reader.{done, exception, more, read_slot}
use javaprofiler.Reader.Termination.{IsSampler, minus_one, read-ends, read_slot-length}
use javaprofiler.JavaProfileData.{
  JavaProfileData, new_data, number, recorded, read_locations, read_java_sample_of,
  read_java_sample, read_java_file,
}

read_locations-length :
    (n : ℕ) (d : JavaProfileData) (bytes : List ℕ)
    → length (read_locations n d bytes).2 ≤ length bytes
unfolding read_locations
read_locations-length zero d bytes = omega arith
read_locations-length (suc n) d bytes =
    let (m, r₁) = read_slot bytes in
    let (line, r₂) = read_slot r₁ in
    let d₁ = (number (record { methodid = m; line = to_int line }) d).1 in
    omega (arith, read_slot-length bytes, read_slot-length r₁, read_locations-length n d₁ r₂)

-- A depth that is odd or below 0 throws.
pub read_java_sample-IsSampler : IsSampler read_java_sample
unfolding read_java_sample read_java_sample_of
read_java_sample-IsSampler = record {
  onward = λ sample_count depth d bytes. by_depth (to_int depth) sample_count d bytes;
  at_end = λ sample_count d. at_minus_one sample_count d;
}
  where
    by_depth :
        (depth : ℤ) (sample_count : ℕ) (d : JavaProfileData) (bytes : List ℕ)
        → (read_java_sample_of depth sample_count d bytes ≡ exception)
          ⊎ ((r : JavaProfileData × List ℕ) × (read_java_sample_of depth sample_count d bytes
                ≡ done r)
              × (length r.1 ≤ length bytes))
    by_depth (negsuc n) sample_count d bytes = inl refl
    by_depth (pos n) sample_count d bytes = elim (Bool-cases (n % 2 == 0)) [
      | inl even ↦ inr (
        (
          recorded (read_locations (n / 2) d bytes).0 sample_count
              (read_locations (n / 2) d bytes).1,
          (read_locations (n / 2) d bytes).2,
        ),
        rw even refl,
        read_locations-length (n / 2) d bytes,
      )
      | inr odd ↦ inl (rw odd refl)
    ]

    at_minus_one :
        (sample_count : ℕ) (d : JavaProfileData)
        → read_java_sample sample_count (2 ^ 64 - 1) d [] ≡ exception
    at_minus_one sample_count d = ap (λ k. read_java_sample_of k sample_count d []) minus_one

-- The reader of Java profiles ends on every file whose header announces fewer than 2 ^ 31 slots,
-- whatever its bytes are: it returns an object or throws.
pub read_java_file-ends :
    (bytes : List ℕ) → (read_slot (read_slot bytes).1).0 < 2 ^ 31 → read_java_file bytes ≢ more
unfolding read_java_file
read_java_file-ends bytes h = read-ends read_java_sample read_java_sample-IsSampler new_data bytes h

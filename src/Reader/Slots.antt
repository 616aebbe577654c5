-- ===== src/Reader/Slots.antt =====
-- `readSlot` of ProfileData.java on the slots that profiledata.cc writes.
use javaprofiler.Base.{
  ℕ, zero, suc, ◌+◌, ◌*◌, ◌/◌, ◌%◌, ◌^◌, ◌<◌, ◌≤◌, ◌≡◌, refl, ap, ◌∙◌, List, [], ◌∷◌, ◌++◌, length,
  All, bit_or, arith,
}
use native.Mathlib.Nat.{pow-suc}
use native.Mathlib.Numerals.{towards_suc}
use javaprofiler.Base.Bits.{bit_or_above}
use javaprofiler.Slot.{le_bytes, encode, IsSlot}
use javaprofiler.Reader.{read_slot_from, read_slot, read_slots}

parts : (s : ℕ) → s ≡ s % 256 + 256 * (s / 256)
parts s = omega arith

-- One round at place `i`: the byte goes above the bits that are set.
merge_byte :
    (i value b : ℕ)
    → value < 2 ^ (i * 8)
    → b * 2 ^ (i * 8) < 2 ^ 64
    → bit_or value (b * 2 ^ (i * 8) % 2 ^ 64) ≡ value + b * 2 ^ (i * 8)
merge_byte i value b h k =
    let plain : b * 2 ^ (i * 8) % 2 ^ 64 ≡ b * 2 ^ (i * 8) = omega arith in
    rw plain (bit_or_above (i * 8) value b h)

next_place : (i : ℕ) → 2 ^ ((i + 1) * 8) ≡ 256 * 2 ^ (i * 8)
next_place i =
    let shifted : (i + 1) * 8 ≡ i * 8 + 8 = omega arith in
    rw shifted (simp towards_suc (omega arith))

-- The rounds that are left read the bytes that are left, above the value so far.
read_slot_from-le_bytes :
    (n i value s : ℕ) (rest : List ℕ)
    → value < 2 ^ (i * 8)
    → s < 256 ^ n
    → s * 2 ^ (i * 8) < 2 ^ 64
    → read_slot_from n i value (le_bytes n s ++ rest) ≡ (value + s * 2 ^ (i * 8), rest)
unfolding read_slot_from le_bytes
read_slot_from-le_bytes zero i value s rest h k fits =
    let none_left : s ≡ 0 = omega arith in rw none_left (ap (λ (v : ℕ). (v, rest)) (omega arith))
read_slot_from-le_bytes (suc n) i value s rest h k fits =
    let place = 2 ^ (i * 8) in
    let low = s % 256 in
    let high = s / 256 in
    let split : s * place ≡ low * place + 256 * (high * place) =
      omega (arith, ap (λ (t : ℕ). t * place) (parts s)) in
    let small : low * place ≤ 255 * place = grind arith in
    let shift : high * 2 ^ ((i + 1) * 8) ≡ 256 * (high * place) =
      omega (arith, ap (λ (t : ℕ). high * t) (next_place i)) in
    rw (merge_byte i value low h (omega arith)) (
      read_slot_from-le_bytes n (i + 1) (value + low * place) high rest
        (omega (arith, next_place i)) (omega (arith, pow-suc 256 n)) (omega arith)
      ∙ ap (λ (v : ℕ). (v, rest)) (omega arith))

-- A slot reads back as it was written, and the rest of the file is left.
pub read_slot-le_bytes :
    (s : ℕ) (rest : List ℕ) → IsSlot s → read_slot (le_bytes 8 s ++ rest) ≡ (s, rest)
unfolding read_slot
read_slot-le_bytes s rest h =
    read_slot_from-le_bytes 8 0 0 s rest (omega arith) (omega arith) (omega arith)
    ∙ ap (λ (v : ℕ). (v, rest)) (omega arith)

-- A 64-bit slot written by the collector is read back by the Java reader, which then stands at the
-- next one.
pub read_slot-encode :
    (s : ℕ) (ss : List ℕ) → IsSlot s → read_slot (encode (s ∷ ss)) ≡ (s, encode ss)
unfolding encode
read_slot-encode s ss h = read_slot-le_bytes s (encode ss) h

-- So do the slots of an array.
pub read_slots-encode :
    (xs ys : List ℕ) → All IsSlot xs → read_slots (length xs) (encode (xs ++ ys)) ≡ (xs, encode ys)
unfolding read_slots
read_slots-encode [] ys h = refl
read_slots-encode (x ∷ xs) ys h =
    rw (read_slot-encode x (xs ++ ys) h.0, read_slots-encode xs ys h.1)

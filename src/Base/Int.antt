-- ===== src/Base/Int.antt =====
-- The C++ `int` and the JNI `jint` as signed integers, and their conversion to machine words.
use javaprofiler.Base.Tests.{ltb, leb, ◌==◌, if◌then◌else◌}
use mathlib.Core.Bool.{Bool, true, false}
use mathlib.Core.Logic.{◌↔◌}
use Prim.Native.Nat.{ℕ, ◌-◌, ◌%◌, ◌^◌, ◌<◌}
use mathlib.Core.Path.{◌≡◌, refl}
use native.Mathlib.Omega.{arith}

-- `negsuc n` is -(n + 1).
pub data ℤ : Type 0 where
  pos : ℕ → ℤ
  negsuc : ℕ → ℤ

abbrev pub pos_part : ℤ → ℕ
pos_part (pos n) = n
pos_part (negsuc n) = 0

abbrev pub word_mod : ℕ
word_mod = 2 ^ 64

-- The conversion of a signed integer to `uintptr_t`: modulo 2 ^ 64.
unfoldable pub to_word : ℤ → ℕ
to_word (pos n) = n % 2 ^ 64
to_word (negsuc n) = 2 ^ 64 - 1 - n % 2 ^ 64

-- The conversion of a 64-bit word to a 32-bit `int`: the low 32 bits in two's complement.
unfoldable pub to_int : ℕ → ℤ
to_int w = let low = w % 2 ^ 32 in if ltb low (2 ^ 31) then pos low else negsuc (2 ^ 32 - 1 - low)

-- The values of a 32-bit `int`.
abbrev pub IsInt : ℤ → Type 0
IsInt (pos n) = n < 2 ^ 31
IsInt (negsuc n) = n < 2 ^ 31

pub to_word-lt : (i : ℤ) → to_word i < word_mod
unfolding to_word
to_word-lt (pos n) = omega arith
to_word-lt (negsuc n) = omega arith

-- An `int` survives the trip through a 64-bit slot.
pub to_int-to_word : (i : ℤ) → IsInt i → to_int (to_word i) ≡ i
unfolding to_int to_word
to_int-to_word (pos n) h = ground arith
to_int-to_word (negsuc n) h = ground arith

-- `==` and `<=` of signed integers.
abbrev pub int_eq : ℤ → ℤ → Bool
int_eq (pos a) (pos b) = a == b
int_eq (negsuc a) (negsuc b) = a == b
int_eq (pos a) (negsuc b) = false
int_eq (negsuc a) (pos b) = false

abbrev pub int_le : ℤ → ℤ → Bool
int_le (pos a) (pos b) = leb a b
int_le (negsuc a) (negsuc b) = leb b a
int_le (pos a) (negsuc b) = false
int_le (negsuc a) (pos b) = true

pub int_eq_iff : (a b : ℤ) → (int_eq a b ≡ true) ↔ (a ≡ b)
int_eq_iff (pos a) (pos b) = (λ h. ground arith, λ h. ground arith)
int_eq_iff (negsuc a) (negsuc b) = (λ h. ground arith, λ h. ground arith)
int_eq_iff (pos a) (negsuc b) = (λ h. cc, λ h. cc)
int_eq_iff (negsuc a) (pos b) = (λ h. cc, λ h. cc)

pub int_le_refl : (a : ℤ) → int_le a a ≡ true
int_le_refl (pos a) = ground arith
int_le_refl (negsuc a) = ground arith

pub int_le_trans : (a b c : ℤ) → int_le a b ≡ true → int_le b c ≡ true → int_le a c ≡ true
int_le_trans (pos a) (pos b) (pos c) h k = ground arith
int_le_trans (pos a) (pos b) (negsuc c) h k = cc
int_le_trans (pos a) (negsuc b) c h k = cc
int_le_trans (negsuc a) (pos b) (pos c) h k = refl
int_le_trans (negsuc a) (pos b) (negsuc c) h k = cc
int_le_trans (negsuc a) (negsuc b) (pos c) h k = refl
int_le_trans (negsuc a) (negsuc b) (negsuc c) h k = ground arith

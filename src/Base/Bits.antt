-- ===== src/Base/Bits.antt =====
-- `bit_or` of two words that share no bit, for the shifts of profiledata.cc and ProfileData.java.
use Prim.Native.Nat.{
  ℕ, zero, suc, ◌+◌, ◌*◌, ◌/◌, ◌%◌, ◌^◌, ◌≤◌, ◌<◌, max, bit_or, digits, bit_or-bitwise,
}
use mathlib.Core.Path.{◌≡◌, refl, ap, ◌∙◌}
use native.Mathlib.Omega.{arith}
use native.Mathlib.Nat.{pow-suc}

abbrev or_digits : ℕ → ℕ → ℕ → ℕ
or_digits n a b = digits (λ b. b) max n a b

or_digits_fuel : (k l x y : ℕ) → x ≤ k → x ≤ l → or_digits k x y ≡ or_digits l x y
or_digits_fuel (suc k) (suc l) (suc x) y enough enough' =
    omega (arith, or_digits_fuel k l (suc x / 2) (y / 2) (omega arith) (omega arith))
or_digits_fuel (suc k) (suc l) zero y enough enough' = refl
or_digits_fuel (suc k) zero (suc x) y enough enough' = absurd (omega arith)
or_digits_fuel (suc k) zero zero y enough enough' = refl
or_digits_fuel zero (suc l) (suc x) y enough enough' = absurd (omega arith)
or_digits_fuel zero (suc l) zero y enough enough' = refl
or_digits_fuel zero zero (suc x) y enough enough' = absurd (omega arith)
or_digits_fuel zero zero zero y enough enough' = refl

pub zero-bit_or : (b : ℕ) → bit_or 0 b ≡ b
zero-bit_or b = bit_or-bitwise 0 b

bit_or_lowest : (a b : ℕ) → bit_or a b ≡ bit_or (a / 2) (b / 2) * 2 + max (a % 2) (b % 2)
bit_or_lowest zero b = omega (arith, zero-bit_or b, zero-bit_or (b / 2))
bit_or_lowest (suc a) b = omega (
  arith,
  bit_or-bitwise (suc a) b,
  bit_or-bitwise (suc a / 2) (b / 2),
  or_digits_fuel a (suc a / 2) (suc a / 2) (b / 2) (omega arith) (omega arith),
)

-- A word below 2 ^ k, and a multiple of 2 ^ k.
pub bit_or_above : (k low high : ℕ) → low < 2 ^ k → bit_or low (high * 2 ^ k) ≡ low + high * 2 ^ k
bit_or_above zero low high h =
    let none_set : low ≡ 0 = omega arith in rw none_set (zero-bit_or (high * 2 ^ 0) ∙ omega arith)
bit_or_above (suc k) low high h =
    let top = high * 2 ^ k in
    let doubled : high * 2 ^ suc k ≡ top * 2 =
      omega (arith, ap (λ (t : ℕ). high * t) (pow-suc 2 k)) in
    let halved : top * 2 / 2 ≡ top = omega arith in
    rw doubled (
      omega (
        arith,
        bit_or_lowest low (top * 2),
        ap (bit_or (low / 2)) halved,
        bit_or_above k (low / 2) high (omega (arith, pow-suc 2 k)),
      ))

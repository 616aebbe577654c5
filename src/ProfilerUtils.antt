-- ===== src/ProfilerUtils.antt =====
-- ProfilerUtils.java: counts by key. A `long` is its 64-bit pattern, and a hash map the list of its
-- entries.
pub mod Charges
use javaprofiler.Base.{
  ℕ, ◌+◌, ◌%◌, ◌^◌, ◌≡◌, refl, Bool, true, Option, none, some, List, [], ◌∷◌, if◌then◌else◌,
  list_eq, list_eq_refl, list_eq_sound,
}

-- `equals` of a key.
pub record Equals {ℓ} (K : Type ℓ) : Type ℓ where
  pub equals : K → K → Bool
  pub equals_refl : (k : K) → equals k k ≡ true
  pub equals_sound : (j k : K) → equals j k ≡ true → j ≡ k

-- Texts.
instance abbrev pub text_equals : Equals (List ℕ)
text_equals = record { equals = list_eq; equals_refl = list_eq_refl; equals_sound = list_eq_sound }

-- A count that is not there is 0.
abbrev pub or_zero : Option ℕ → ℕ
or_zero none = 0
or_zero (some n) = n

module _ {ℓ} {K : Type ℓ} ⦃key : Equals K⦄ where
  unfoldable pub get : List (K × ℕ) → K → Option ℕ
  get [] k = none
  get ((j, n) ∷ map) k = if key.equals j k then some n else get map k

  unfoldable pub put : List (K × ℕ) → K → ℕ → List (K × ℕ)
  put [] k count = (k, count) ∷ []
  put ((j, n) ∷ map) k count =
      let rest = put map k count in if key.equals j k then (j, count) ∷ map else (j, n) ∷ rest

  unfoldable pub increment : List (K × ℕ) → K → ℕ → List (K × ℕ)
  increment map k add = put map k ((or_zero (get map k) + add) % 2 ^ 64)

  -- The loop over the entries of `getFlatProfile`.
  unfoldable pub flat_from : List (K × ℕ) → List (List K × ℕ) → List (K × ℕ)
  flat_from counts [] = counts
  flat_from counts (([], count) ∷ entries) = flat_from counts entries
  flat_from counts ((ip ∷ ips, count) ∷ entries) = flat_from (increment counts ip count) entries

  unfoldable pub get_flat_profile : List (List K × ℕ) → List (K × ℕ)
  get_flat_profile observations = flat_from [] observations

  -- The inner loop of `getCumulativeProfile`.
  unfoldable pub charge : List (K × ℕ) → ℕ → List K → List (K × ℕ)
  charge counts count [] = counts
  charge counts count (ip ∷ ips) = charge (increment counts ip count) count ips

  -- The outer loop.
  unfoldable pub cumulative_from : List (K × ℕ) → List (List K × ℕ) → List (K × ℕ)
  cumulative_from counts [] = counts
  cumulative_from counts ((ips, count) ∷ entries) =
      cumulative_from (charge counts count ips) entries

  unfoldable pub get_cumulative_profile : List (List K × ℕ) → List (K × ℕ)
  get_cumulative_profile observations = cumulative_from [] observations

-- The loop over the values.
unfoldable pub total_from {ℓ} : {K : Type ℓ} → ℕ → List (K × ℕ) → ℕ
total_from result [] = result
total_from result ((k, value) ∷ profile) = total_from ((result + value) % 2 ^ 64) profile

unfoldable pub total_profile {ℓ} : {K : Type ℓ} → List (K × ℕ) → ℕ
total_profile profile = total_from 0 profile

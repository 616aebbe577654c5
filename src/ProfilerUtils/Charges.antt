-- ===== src/ProfilerUtils/Charges.antt =====
-- What the flat and the cumulative profile of ProfilerUtils.java charge to each key.
use javaprofiler.Base.{
  ℕ, ◌+◌, ◌%◌, ◌^◌, ◌<◌, ◌≡◌, refl, sym, ap, ◌∙◌, Bool-cases, inl, inr, some, List, [], ◌∷◌, arith,
  if◌then◌else◌,
}
use javaprofiler.ProfilerUtils.{
  Equals, or_zero, get, put, increment, flat_from, get_flat_profile, charge, cumulative_from,
  get_cumulative_profile, total_from, total_profile,
}

-- The sum of the values, which does not wrap around.
unfoldable pub values {ℓ} : {K : Type ℓ} → List (K × ℕ) → ℕ
values [] = 0
values ((k, n) ∷ map) = n + values map

total_from-values {ℓ} :
    {K : Type ℓ} (result : ℕ) (map : List (K × ℕ))
    → result < 2 ^ 64
    → total_from result map ≡ (result + values map) % 2 ^ 64
unfolding total_from values
total_from-values result [] h = omega arith
total_from-values result ((k, n) ∷ map) h =
    total_from-values ((result + n) % 2 ^ 64) map (omega arith) ∙ omega arith

module _ {ℓ} {K : Type ℓ} ⦃key : Equals K⦄ where
  -- How much of the entries is charged to `k`: for the top of a stack, and for every place in it.
  unfoldable pub flat_total : K → List (List K × ℕ) → ℕ
  flat_total k [] = 0
  flat_total k (([], n) ∷ entries) = flat_total k entries
  flat_total k ((ip ∷ ips, n) ∷ entries) = (if key.equals ip k then n else 0) + flat_total k entries

  unfoldable pub places : K → List K → ℕ → ℕ
  places k [] n = 0
  places k (ip ∷ ips) n = (if key.equals ip k then n else 0) + places k ips n

  unfoldable pub cumulative_total : K → List (List K × ℕ) → ℕ
  cumulative_total k [] = 0
  cumulative_total k ((ips, n) ∷ entries) = places k ips n + cumulative_total k entries

  -- The counts of the entries that have a top.
  unfoldable pub charged : List (List K × ℕ) → ℕ
  charged [] = 0
  charged (([], n) ∷ entries) = charged entries
  charged ((ip ∷ ips, n) ∷ entries) = n + charged entries

  pub get-put :
      (map : List (K × ℕ)) (k q : K) (n : ℕ)
      → get (put map k n) q ≡ (if key.equals k q then some n else get map q)
  unfolding get put
  get-put [] k q n = refl
  get-put ((j, m) ∷ map) k q n = elim (Bool-cases (key.equals j k)) [
    | inl same ↦
        let e : key.equals j q ≡ key.equals k q =
          ap (λ (x : K). key.equals x q) (key.equals_sound j k same) in
        elim (Bool-cases (key.equals k q)) [
          | inl here ↦ rw (same, get, e ∙ here, here) refl
          | inr other ↦ rw (same, get, e ∙ other, other) refl
        ]
    | inr apart ↦ elim (Bool-cases (key.equals j q)) [
      | inl here ↦
          let e : key.equals k q ≡ key.equals k j =
            ap (key.equals k) (sym (key.equals_sound j q here)) in
          elim (Bool-cases (key.equals k j)) [
            | inl back ↦ absurd (
                cc (
                  apart,
                  ap (λ (x : K). key.equals j x) (key.equals_sound k j back),
                  key.equals_refl j,
                ))
            | inr other ↦ rw (apart, get, here, e ∙ other) refl
          ]
      | inr other ↦ rw (apart, get, other) (get-put map k q n)
    ]
  ]

  values-put :
      (map : List (K × ℕ)) (k : K) (n : ℕ)
      → values (put map k n) + or_zero (get map k) ≡ values map + n
  unfolding values get put
  values-put [] k n = omega arith
  values-put ((j, m) ∷ map) k n = elim (Bool-cases (key.equals j k)) [
    | inl same ↦ rw (same, values) (omega arith)
    | inr other ↦ rw (other, values) (omega (arith, values-put map k n))
  ]

  abbrev pub count_of : K → List (K × ℕ) → ℕ
  count_of k map = or_zero (get map k)

  pub count_of-increment :
      (map : List (K × ℕ)) (k q : K) (n : ℕ)
      → count_of q map < 2 ^ 64
      → count_of q (increment map k n)
        ≡ (count_of q map + (if key.equals k q then n else 0)) % 2 ^ 64
  unfolding increment
  count_of-increment map k q n h = elim (Bool-cases (key.equals k q)) [
    | inl same ↦
        let e : count_of k map ≡ count_of q map =
          ap (λ (x : K). count_of x map) (key.equals_sound k q same) in
        rw (get-put map k q ((count_of k map + n) % 2 ^ 64), same) (omega (arith, e))
    | inr other ↦ rw (get-put map k q ((count_of k map + n) % 2 ^ 64), other) (omega arith)
  ]

  values-increment :
      (map : List (K × ℕ)) (k : K) (n : ℕ)
      → values (increment map k n) % 2 ^ 64 ≡ (values map + n) % 2 ^ 64
  unfolding increment
  values-increment map k n = omega (arith, values-put map k ((count_of k map + n) % 2 ^ 64))

  flat_from-count :
      (counts : List (K × ℕ)) (entries : List (List K × ℕ)) (q : K)
      → count_of q counts < 2 ^ 64
      → count_of q (flat_from counts entries) ≡ (count_of q counts + flat_total q entries) % 2 ^ 64
  unfolding flat_from flat_total
  flat_from-count counts [] q h = omega arith
  flat_from-count counts (([], n) ∷ entries) q h = flat_from-count counts entries q h
  flat_from-count counts ((ip ∷ ips, n) ∷ entries) q h =
      let e = count_of-increment counts ip q n h in
      flat_from-count (increment counts ip n) entries q (omega (arith, e)) ∙ omega (arith, e)

  flat_from-values :
      (counts : List (K × ℕ)) (entries : List (List K × ℕ))
      → values (flat_from counts entries) % 2 ^ 64 ≡ (values counts + charged entries) % 2 ^ 64
  unfolding flat_from charged
  flat_from-values counts [] = omega arith
  flat_from-values counts (([], n) ∷ entries) = flat_from-values counts entries
  flat_from-values counts ((ip ∷ ips, n) ∷ entries) =
      flat_from-values (increment counts ip n) entries ∙ omega (arith, values-increment counts ip n)

  charge-count :
      (counts : List (K × ℕ)) (n : ℕ) (ips : List K) (q : K)
      → count_of q counts < 2 ^ 64
      → count_of q (charge counts n ips) ≡ (count_of q counts + places q ips n) % 2 ^ 64
  unfolding charge places
  charge-count counts n [] q h = omega arith
  charge-count counts n (ip ∷ ips) q h =
      let e = count_of-increment counts ip q n h in
      charge-count (increment counts ip n) n ips q (omega (arith, e)) ∙ omega (arith, e)

  cumulative_from-count :
      (counts : List (K × ℕ)) (entries : List (List K × ℕ)) (q : K)
      → count_of q counts < 2 ^ 64
      → count_of q (cumulative_from counts entries)
        ≡ (count_of q counts + cumulative_total q entries) % 2 ^ 64
  unfolding cumulative_from cumulative_total
  cumulative_from-count counts [] q h = omega arith
  cumulative_from-count counts ((ips, n) ∷ entries) q h =
      let e = charge-count counts n ips q h in
      cumulative_from-count (charge counts n ips) entries q (omega (arith, e)) ∙ omega (arith, e)

  -- The total of the flat profile is the total of the entries that have a top.
  pub total_profile-get_flat_profile :
      (entries : List (List K × ℕ))
      → total_profile (get_flat_profile entries) ≡ charged entries % 2 ^ 64
  unfolding total_profile get_flat_profile values
  total_profile-get_flat_profile entries =
      total_from-values 0 (flat_from [] entries) (omega arith)
      ∙ omega (arith, flat_from-values [] entries)

  -- The flat profile charges each entry to the top of its stack, and the cumulative profile to every
  -- place of its stack.
  pub get_flat_profile-count :
      (entries : List (List K × ℕ)) (q : K)
      → count_of q (get_flat_profile entries) ≡ flat_total q entries % 2 ^ 64
  unfolding get_flat_profile get
  get_flat_profile-count entries q = flat_from-count [] entries q (omega arith) ∙ omega arith

  pub get_cumulative_profile-count :
      (entries : List (List K × ℕ)) (q : K)
      → count_of q (get_cumulative_profile entries) ≡ cumulative_total q entries % 2 ^ 64
  unfolding get_cumulative_profile get
  get_cumulative_profile-count entries q =
      cumulative_from-count [] entries q (omega arith) ∙ omega arith

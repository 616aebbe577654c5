-- ===== src/JavaProfileData/Numbering.antt =====
-- The numbers that JavaProfileData.java gives to locations.
use javaprofiler.Base.{
  ℕ, zero, suc, ◌≡◌, refl, ap, ◌⊎◌, inl, inr, Bool-cases, true, Option-cases, none, some, List, [],
  ◌∷◌, ◌++◌, length, get_elem?, if◌then◌else◌, int_eq_iff, ==_iff, arith, subst,
}
use javaprofiler.JavaProfileData.{
  JavaLocation, same_location, hash_code, JavaProfileData, new_data, find_index, number,
}

pub same_location_sound : (a b : JavaLocation) → same_location a b ≡ true → a ≡ b
same_location_sound a b h = ground (arith, int_eq_iff a.line b.line, ==_iff a.methodid b.methodid)

pub same_location_refl : (a : JavaLocation) → same_location a a ≡ true
same_location_refl a = ground (arith, int_eq_iff a.line a.line, ==_iff a.methodid a.methodid)

-- Equal locations have equal hash codes, as `HashMap` demands.
pub hash_code-same_location :
    (a b : JavaLocation) → same_location a b ≡ true → hash_code a ≡ hash_code b
hash_code-same_location a b h = ap hash_code (same_location_sound a b h)

module _ {A : Type 0} where
  pub get_elem?-append :
      (xs ys : List A) (i : ℕ) (a : A) → get_elem? xs i ≡ some a → get_elem? (xs ++ ys) i ≡ some a
  unfolding get_elem?
  get_elem?-append [] ys i a h = cc
  get_elem?-append (x ∷ xs) ys zero a h = h
  get_elem?-append (x ∷ xs) ys (suc i) a h = get_elem?-append xs ys i a h

  pub get_elem?-last : (xs : List A) (a : A) → get_elem? (xs ++ a ∷ []) (length xs) ≡ some a
  unfolding get_elem?
  get_elem?-last [] a = refl
  get_elem?-last (x ∷ xs) a = get_elem?-last xs a

  -- What an array with one more element holds.
  pub get_elem?-snoc :
      (xs : List A) (l : A) (i : ℕ) (a : A)
      → get_elem? (xs ++ l ∷ []) i ≡ some a
      → (get_elem? xs i ≡ some a) ⊎ ((i ≡ length xs) × (l ≡ a))
  unfolding get_elem?
  get_elem?-snoc [] l zero a h = inr (refl, ground arith)
  get_elem?-snoc [] l (suc i) a h = cc
  get_elem?-snoc (x ∷ xs) l zero a h = inl h
  get_elem?-snoc (x ∷ xs) l (suc i) a h = elim (get_elem?-snoc xs l i a h) [
    | inl old ↦ inl old
    | inr (last, same) ↦ inr (ap suc last, same)
  ]

-- The map and the list are inverse to one another: a number stands for one location, and a location
-- has one number.
pub record IsNumbered (d : JavaProfileData) : Type 0 where
  pub found :
      (l : JavaLocation) (i : ℕ)
      → find_index l d.location_to_index ≡ some i
      → get_elem? d.locations i ≡ some l
  pub known :
      (l : JavaLocation) (i : ℕ)
      → get_elem? d.locations i ≡ some l
      → find_index l d.location_to_index ≡ some i

-- Numbers keep their meaning.
abbrev pub Grows : JavaProfileData → JavaProfileData → Type 0
Grows d d' =
    (i : ℕ) (l : JavaLocation)
    → get_elem? d.locations i ≡ some l
    → get_elem? d'.locations i ≡ some l

pub new_data-IsNumbered : IsNumbered new_data
unfolding new_data find_index get_elem?
new_data-IsNumbered = record { found = λ l i h. cc; known = λ l i h. cc }

-- A new location at the end of the list.
added-IsNumbered :
    (l : JavaLocation) (d : JavaProfileData)
    → IsNumbered d
    → find_index l d.location_to_index ≡ none
    → IsNumbered (record d {
      locations = d.locations ++ l ∷ [];
      location_to_index = (l, length d.locations) ∷ d.location_to_index;
    })
unfolding find_index
added-IsNumbered l d v missing = record { found = found; known = known }
  where
    found :
        (k : JavaLocation) (i : ℕ)
        → (if same_location l k
            then some (length d.locations)
            else find_index k d.location_to_index)
          ≡ some i
        → get_elem? (d.locations ++ l ∷ []) i ≡ some k
    found k i h = elim (Bool-cases (same_location l k)) [
      | inl same ↦
          let last : length d.locations ≡ i = ground arith in
          rw (← last, ← same_location_sound l k same) (get_elem?-last d.locations l)
      | inr other ↦ get_elem?-append d.locations (l ∷ []) i k (v.found k i (ground arith))
    ]

    known :
        (k : JavaLocation) (i : ℕ)
        → get_elem? (d.locations ++ l ∷ []) i ≡ some k
        → (if same_location l k
            then some (length d.locations)
            else find_index k d.location_to_index)
          ≡ some i
    known k i h = elim (get_elem?-snoc d.locations l i k h) [
      | inr (last, same) ↦ rw (← same, same_location_refl, last)
      | inl old ↦ elim (Bool-cases (same_location l k)) [
        | inr other ↦ rw other (v.known k i old)
        | inl same ↦
            let e : find_index k d.location_to_index ≡ none =
              subst (λ a. find_index a d.location_to_index ≡ none) (same_location_sound l k same)
                missing in
            absurd (ground (arith, v.known k i old))
      ]
    ]

-- What `number` gives: a number for the location, while the others stay.
pub record Numbers (l : JavaLocation) (d : JavaProfileData) (r : ℕ × JavaProfileData) : Type 0 where
  pub numbered : IsNumbered r.1
  pub here : get_elem? r.1.locations r.0 ≡ some l
  pub grows : Grows d r.1
  pub kept : r.1.observations ≡ d.observations

pub number_lem : (l : JavaLocation) (d : JavaProfileData) → IsNumbered d → Numbers l d (number l d)
unfolding number
number_lem l d v = elim (Option-cases (find_index l d.location_to_index)) [
  | inr (i, hit) ↦
      rw (hit, number)
        (record { numbered = v; here = v.found l i hit; grows = λ j k h. h; kept = refl })
  | inl missing ↦
      rw (missing, number)
        (record {
          numbered = added-IsNumbered l d v missing;
          here = get_elem?-last d.locations l;
          grows = λ j k h. get_elem?-append d.locations (l ∷ []) j k h;
          kept = refl;
        })
]

-- ===== src/Reader/Reduce/Paths.antt =====
-- What the reduced path of a stack holds: each name once, in `getReduced` of ProfileData.java.
use javaprofiler.Base.{
  ℕ, ◌+◌, ◌≡◌, refl, sym, ap, ◌∙◌, Bool, Bool-cases, true, false, not, ◌||◌, inl, inr, List, [],
  ◌∷◌, ◌++◌, arith, if◌then◌else◌, list_eq, list_eq_sound,
}
use javaprofiler.ProfilerUtils.{text_equals}
use javaprofiler.ProfilerUtils.Charges.{places}
use javaprofiler.Reader.Reduce.{contains, reduce_from, reduced_path}

places-append :
    (q : List ℕ) (path : List (List ℕ)) (e : List ℕ) (n : ℕ)
    → places q (path ++ (e ∷ [])) n ≡ places q path n + (if list_eq e q then n else 0)
unfolding places
places-append q [] e n = omega arith
places-append q (p ∷ path) e n = omega (arith, places-append q path e n)

-- What is still to come of a name.
abbrev to_come : List (List ℕ) → List (List ℕ) → List ℕ → ℕ → ℕ
to_come seen translated q n =
    if contains seen q then 0 else (if contains translated q then n else 0)

to_come_nothing : (seen : List (List ℕ)) (q : List ℕ) (n : ℕ) → to_come seen [] q n ≡ 0
unfolding contains
to_come_nothing seen q n = elim (Bool-cases (contains seen q)) [
  | inl old ↦ rw old refl
  | inr new ↦ rw new refl
]

to_come_skipped :
    (seen translated : List (List ℕ)) (e q : List ℕ) (n : ℕ)
    → contains seen e ≡ true
    → to_come seen (e ∷ translated) q n ≡ to_come seen translated q n
unfolding contains
to_come_skipped seen translated e q n h = elim (Bool-cases (list_eq e q)) [
  | inl same ↦
      let e' : contains seen q ≡ true = ap (contains seen) (sym (list_eq_sound e q same)) ∙ h in
      rw e' refl
  | inr other ↦ rw other refl
]

to_come_added :
    (seen translated : List (List ℕ)) (e q : List ℕ) (n : ℕ)
    → contains seen e ≡ false
    → to_come seen (e ∷ translated) q n
      ≡ (if list_eq e q then n else 0) + to_come (e ∷ seen) translated q n
unfolding contains
to_come_added seen translated e q n h = elim (Bool-cases (list_eq e q)) [
  | inl same ↦
      let e' : contains seen q ≡ false = ap (contains seen) (sym (list_eq_sound e q same)) ∙ h in
      rw (e', same) (omega arith)
  | inr other ↦ rw other (omega arith)
]

places-reduce_from :
    (seen path translated : List (List ℕ)) (q : List ℕ) (n : ℕ)
    → places q (reduce_from seen path translated) n ≡ places q path n + to_come seen translated q n
unfolding reduce_from
places-reduce_from seen path [] q n = omega (arith, to_come_nothing seen q n)
places-reduce_from seen path (e ∷ translated) q n = elim (Bool-cases (contains seen e)) [
  | inl old ↦
      rw (old, to_come_skipped seen translated e q n old)
        (places-reduce_from seen path translated q n)
  | inr new ↦
      rw (new, to_come_added seen translated e q n new)
        (omega (
          arith,
          places-reduce_from (e ∷ seen) (path ++ (e ∷ [])) translated q n,
          places-append q path e n,
        ))
]

-- A name that is not empty has one place in the path if the stack has it, and no place if not.
pub places-reduced_path :
    (translated : List (List ℕ)) (q : List ℕ) (n : ℕ)
    → list_eq [] q ≡ false
    → places q (reduced_path translated) n ≡ (if contains translated q then n else 0)
unfolding reduced_path places contains
places-reduced_path translated q n h =
    places-reduce_from ([] ∷ []) [] translated q n ∙ rw h (omega arith)

-- Some name is not empty.
unfoldable pub is_visible : List (List ℕ) → Bool
is_visible [] = false
is_visible (e ∷ translated) = not (list_eq [] e) || is_visible translated

abbrev pub IsCons : List (List ℕ) → Type 0
IsCons path = (e : List ℕ) × (es : List (List ℕ)) × (path ≡ e ∷ es)

reduce_from-IsCons :
    (seen translated : List (List ℕ)) (p : List ℕ) (path : List (List ℕ))
    → IsCons (reduce_from seen (p ∷ path) translated)
unfolding reduce_from
reduce_from-IsCons seen [] p path = (p, path, refl)
reduce_from-IsCons seen (e ∷ translated) p path = elim (Bool-cases (contains seen e)) [
  | inl old ↦ rw old (reduce_from-IsCons seen translated p path)
  | inr new ↦ rw new (reduce_from-IsCons (e ∷ seen) translated p (path ++ (e ∷ [])))
]

pub reduced_path-IsCons :
    (translated : List (List ℕ)) → is_visible translated ≡ true → IsCons (reduced_path translated)
unfolding reduced_path reduce_from is_visible contains
reduced_path-IsCons [] h = cc
reduced_path-IsCons (e ∷ translated) h = elim (Bool-cases (list_eq [] e)) [
  | inl empty ↦ rw empty (reduced_path-IsCons translated (rw empty at h))
  | inr other ↦ rw other (reduce_from-IsCons (e ∷ [] ∷ []) translated e [])
]

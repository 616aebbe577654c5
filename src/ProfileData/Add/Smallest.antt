-- ===== src/ProfileData/Add/Smallest.antt =====
-- The choice of the victim in `ProfileData::Add`.
use javaprofiler.Base.{
  ℕ, suc, ◌+◌, ◌≤◌, ◌<◌, ◌≡◌, refl, ◌⊎◌, [], ◌∷◌, length, get_elem?, take, All, ltb, some, arith,
  Bool-cases, inl, inr, ltb→lt,
}
use javaprofiler.ProfileData.{Entry, Bucket}
use javaprofiler.ProfileData.Add.{smallest_from, smallest}

-- The entry at index `i` of `es` has the smallest count, and no entry before it has that count.
pub record IsLeast (es : Bucket) (i : ℕ) (v : Entry) : Type 0 where
  pub found : get_elem? es i ≡ some v
  pub least : All (λ (e : Entry). v.count ≤ e.count) es
  pub first : All (λ (e : Entry). v.count < e.count) (take i es)

-- The loop keeps its candidate if nothing in the rest is smaller, and else finds the least there.
abbrev Outcome : Bucket → ℕ → ℕ → ℕ → ℕ → Type 0
Outcome es a best least r =
    ((r ≡ best) × All (λ (e : Entry). least ≤ e.count) es)
    ⊎ ((i : ℕ) × (v : Entry) × (r ≡ a + i) × (v.count < least) × IsLeast es i v)

module _ (e : Entry) (es : Bucket) (a best least r : ℕ) where
  below : e.count < least → Outcome es (a + 1) a e.count r → Outcome (e ∷ es) a best least r
  unfolding get_elem? take
  below h (inl (at, all)) =
      inr (0, e, omega arith, h, record { found = refl; least = (omega arith, all); first = tt })
  below h (inr (i, v, at, lt, m)) = inr (
    suc i,
    v,
    omega arith,
    omega arith,
    record { found = m.found; least = (omega arith, m.least); first = (lt, m.first) },
  )

  above : least ≤ e.count → Outcome es (a + 1) best least r → Outcome (e ∷ es) a best least r
  unfolding get_elem? take
  above h (inl (at, all)) = inl (at, (h, all))
  above h (inr (i, v, at, lt, m)) = inr (
    suc i,
    v,
    omega arith,
    lt,
    record { found = m.found; least = (omega arith, m.least); first = (omega arith, m.first) },
  )

smallest_from-Outcome :
    (es : Bucket) (a best least : ℕ) → Outcome es a best least (smallest_from es a best least)
unfolding smallest_from
smallest_from-Outcome [] a best least = inl (refl, tt)
smallest_from-Outcome (e ∷ es) a best least = elim (Bool-cases (ltb e.count least)) [
  | inl lt ↦
      rw lt (below e es a best least _ (ltb→lt _ _ lt) (smallest_from-Outcome es (a + 1) a e.count))
  | inr ge ↦
      rw ge (above e es a best least _ (ground arith) (smallest_from-Outcome es (a + 1) best least))
]

from_start :
    (e : Entry) (es : Bucket) (r : ℕ)
    → Outcome es 1 0 e.count r
    → (v : Entry) × IsLeast (e ∷ es) r v
unfolding get_elem? take
from_start e es r (inl (at, all)) =
    (e, rw at (record { found = refl; least = (omega arith, all); first = tt }))
from_start e es r (inr (i, v, at, lt, m)) =
    let at' : r ≡ suc i = omega arith in
    (v, rw at' (record { found = m.found; least = (omega arith, m.least); first = (lt, m.first) }))

-- The victim of a non-empty bucket is its first entry with the smallest count.
pub smallest-IsLeast : (es : Bucket) → 0 < length es → (v : Entry) × IsLeast es (smallest es) v
unfolding smallest
smallest-IsLeast [] h = absurd (omega arith)
smallest-IsLeast (e ∷ es) h = from_start e es _ (smallest_from-Outcome es 1 0 e.count)

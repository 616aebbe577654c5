-- ===== src/ProfileData/Add/Unique.antt =====
-- `ProfileData::Add` and the number of entries that hold a stack in its bucket.
use javaprofiler.Base.{
  ℕ, zero, suc, ◌+◌, ◌≤◌, ◌<◌, ◌≡◌, refl, ap, List, [], ◌∷◌, length, length-take, take, set,
  get_elem?, arith, Bool-cases, true, false, if◌then◌else◌, Option-cases, none, some, inl, inr,
  list_eq, list_eq_refl, list_eq_sound, ◌^◌, ◌%◌,
}
use javaprofiler.ProfileData.{Entry, Bucket}
use javaprofiler.ProfileData.Add.{is_match, count_hit}
use javaprofiler.ProfileData.Add.Match.{is_match_iff}
use javaprofiler.ProfileData.Add.Hit.{CanAdd, CanAdd-tail}

-- Whether an entry holds the stack `key`, as a number.
abbrev pub holds : List ℕ → Entry → ℕ
holds key e = if list_eq (take e.depth e.stack) key then 1 else 0

-- How many entries of a bucket hold it.
unfoldable pub holders : List ℕ → Bucket → ℕ
holders key [] = 0
holders key (e ∷ es) = holds key e + holders key es

-- No two entries hold the same stack. An entry of depth 0 holds none.
abbrev pub IsUnique : Bucket → Type 0
IsUnique es = (key : List ℕ) → 0 < length key → holders key es ≤ 1

module _ (d : ℕ) (stack : List ℕ) where
  match_holds :
      (e : Entry) (es : Bucket)
      → CanAdd d stack (e ∷ es)
      → is_match d stack e ≡ true
      → holds (take d stack) e ≡ 1
  match_holds e es c m =
      let (depth, key) = (is_match_iff d stack e c.entries.0 c.shallow c.long).0 m in
      rw (key, list_eq_refl)

  other_holds :
      (e : Entry) (es : Bucket)
      → CanAdd d stack (e ∷ es)
      → is_match d stack e ≡ false
      → holds (take d stack) e ≡ 0
  other_holds e es c n = elim (Bool-cases (list_eq (take e.depth e.stack) (take d stack))) [
    | inr differs ↦ rw differs refl
    | inl same ↦
        let v = c.entries.0 in
        let key = list_eq_sound (take e.depth e.stack) (take d stack) same in
        let depth : e.depth ≡ d = omega (
          arith,
          ap (λ (xs : List ℕ). length xs) key,
          length-take e.depth e.stack,
          length-take d stack,
          v.size,
          v.shallow,
          c.long,
        ) in
        let m = (is_match_iff d stack e v c.shallow c.long).1 (depth, key) in absurd (ground arith)
  ]

  -- A search that fails means that no entry holds the stack.
  pub count_hit-none :
      (es : Bucket)
      → CanAdd d stack es
      → count_hit d stack es ≡ none
      → holders (take d stack) es ≡ 0
  unfolding count_hit holders
  count_hit-none [] c h = refl
  count_hit-none (e ∷ es) c h = elim (Bool-cases (is_match d stack e)) [
    | inl m ↦ absurd (ground arith)
    | inr n ↦ elim (Option-cases (count_hit d stack es)) [
      | inl missed ↦
          omega (arith, other_holds e es c n, count_hit-none es (CanAdd-tail d stack e es c) missed)
      | inr (es', hit) ↦ absurd (ground arith)
    ]
  ]

  -- A search that succeeds found an entry that holds it, and moves no stack.
  count_hit-some :
      (es es' : Bucket)
      → CanAdd d stack es
      → count_hit d stack es ≡ some es'
      → (0 < holders (take d stack) es) × ((key : List ℕ) → holders key es' ≡ holders key es)
  unfolding count_hit holders
  count_hit-some [] es' c h = cc
  count_hit-some (e ∷ es) es' c h = elim (Bool-cases (is_match d stack e)) [
    | inl m ↦
        let same : record e { count = (e.count + 1) % 2 ^ 64 } ∷ es ≡ es' = ground arith in
        rw (← same) (omega (arith, match_holds e es c m), λ key. refl)
    | inr n ↦ elim (Option-cases (count_hit d stack es)) [
      | inl missed ↦ absurd (ground arith)
      | inr (es'', hit) ↦
          let same : e ∷ es'' ≡ es' = ground arith in
          let (found, kept) = count_hit-some es es'' (CanAdd-tail d stack e es c) hit in
          rw (← same) (omega (arith, found), λ key. omega (arith, kept key))
    ]
  ]

holders-set :
    (key : List ℕ) (es : Bucket) (i : ℕ) (old new : Entry)
    → get_elem? es i ≡ some old
    → holders key (set es i new) + holds key old ≡ holders key es + holds key new
unfolding holders get_elem? set
holders-set key [] i old new h = cc
holders-set key (e ∷ es) zero old new h = let same : e ≡ old = cc in rw (← same) (omega arith)
holders-set key (e ∷ es) (suc i) old new h = omega (arith, holders-set key es i old new h)

holds-le-holders :
    (key : List ℕ) (es : Bucket) (i : ℕ) (e : Entry)
    → get_elem? es i ≡ some e
    → holds key e ≤ holders key es
unfolding holders get_elem?
holds-le-holders key [] i e h = cc
holds-le-holders key (e' ∷ es) zero e h = let same : e' ≡ e = cc in rw (← same) (omega arith)
holds-le-holders key (e' ∷ es) (suc i) e h = omega (arith, holds-le-holders key es i e h)

-- From `es` to `es'` one stack got a place, if it had none: it has exactly one if every stack had
-- at most one, and no other stack got one.
pub record Places (key : List ℕ) (es es' : Bucket) : Type 0 where
  pub unique : IsUnique es → IsUnique es' × (holders key es' ≡ 1)
  pub others : (k : List ℕ) → list_eq key k ≡ false → holders k es' ≤ holders k es

pub hit-Places :
    (d : ℕ) (stack : List ℕ) (es es' : Bucket)
    → CanAdd d stack es
    → count_hit d stack es ≡ some es'
    → Places (take d stack) es es'
hit-Places d stack es es' c hit =
    let (found, kept) = count_hit-some d stack es es' c hit in
    let deep : 0 < length (take d stack) = omega (arith, length-take d stack, c.pos, c.long) in
    record {
      unique = λ u. (
        λ key k. omega (arith, kept key, u key k),
        omega (arith, kept (take d stack), found, u (take d stack) deep),
      );
      others = λ k _. omega (arith, kept k);
    }

-- Giving a place to a stack that no entry holds.
pub set-Places :
    (key : List ℕ) (es : Bucket) (i : ℕ) (old new : Entry)
    → get_elem? es i ≡ some old
    → take new.depth new.stack ≡ key
    → holders key es ≡ 0
    → Places key es (set es i new)
set-Places key es i old new found own none_yet =
    let moved = λ (k : List ℕ). holders-set k es i old new found in
    let one : holds key new ≡ 1 = rw (own, list_eq_refl) in
    let placed : holders key (set es i new) ≡ 1 =
      omega (arith, moved key, one, none_yet, holds-le-holders key es i old found) in
    let others : (k : List ℕ) → list_eq key k ≡ false → holders k (set es i new) ≤ holders k es =
      λ k differs.
        let zero_new : holds k new ≡ 0 = rw (own, differs) refl in
        omega (arith, moved k, zero_new) in
    record {
      unique = λ u. (
        λ k deep. elim (Bool-cases (list_eq key k)) [
          | inl same ↦ rw (← list_eq_sound key k same) (omega (arith, placed))
          | inr differs ↦ omega (arith, others k differs, u k deep)
        ],
        placed,
      );
      others = others;
    }

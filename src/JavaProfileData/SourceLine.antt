-- ===== src/JavaProfileData/SourceLine.antt =====
-- `getMethodName` of JavaProfileData.java and its search of a method's line table, which is the array
-- that `getLineNumberTable0` of agent.cpp makes.
use javaprofiler.Base.{
  ℕ, suc, ◌<◌, ◌≡◌, refl, ◌^◌, ◌⊎◌, inl, inr, ℤ, pos, negsuc, to_int, int_eq, int_le, int_le_trans,
  Bool, Bool-cases, true, false, Option, none, some, List, [], ◌∷◌, ◌++◌, get_elem?, drop, All,
  arith, if◌then◌else◌,
}
use javaprofiler.Agent.LineTable.{Entry, pairs}
use javaprofiler.Reader.Samples.{to_int-small}
use javaprofiler.JavaProfileData.{JavaLocation, JavaProfileData}

-- The loop over the table, with the source line so far. `none` is an index out of bounds, which an
-- array of odd length gives.
unfoldable pub source_line : ℤ → ℤ → List ℤ → Option ℤ
source_line line found [] = some found
source_line line found (start ∷ []) = if int_le start line then none else some found
source_line line found (start ∷ n ∷ table) =
    let rest = source_line line n table in if int_le start line then rest else some found

-- What `Profiler` answers for a method: its four texts, and its line table. A null is `none`.
pub record Natives : Type 0 where
  pub method_info : ℕ → Option (List (List ℕ))
  pub line_number_table : ℕ → Option (List ℤ)

-- The name that is shown: the number of an unknown method, or the four texts, each with the line after
-- " @", and the source line after " srcLine=".
pub data MethodName : Type 0 where
  unknown_methodid : ℕ → Option ℤ → MethodName
  method_name : List ℕ → Option ℤ → Option ℤ → MethodName

abbrev pub shown_line : Bool → ℤ → Option ℤ
shown_line true line = some line
shown_line false line = none

-- A source line of -1 is not shown.
abbrev pub shown_source : ℤ → Option ℤ
shown_source n = if int_eq n (negsuc 0) then none else some n

unfoldable pub with_source : List ℕ → ℤ → Option ℤ → Option MethodName
with_source s line none = none
with_source s line (some n) = some (method_name s (some line) (shown_source n))

unfoldable pub with_line : List ℕ → ℤ → Option (List ℤ) → Option MethodName
with_line s line none = some (method_name s (some line) none)
with_line s line (some table) = with_source s line (source_line line (negsuc 0) table)

-- `none` is an exception: an array of fewer than four texts.
unfoldable pub name_location :
    Natives → Bool → JavaLocation → Option (List (List ℕ)) → Option MethodName
name_location natives line_number l none =
    some (unknown_methodid l.methodid (shown_line line_number l.line))
name_location natives line_number l (some (a ∷ b ∷ c ∷ d ∷ more)) =
    let s = a ++ (b ++ (c ++ d)) in
    if line_number
    then with_line s l.line (natives.line_number_table l.methodid)
    else some (method_name s none none)
name_location natives line_number l (some _) = none

unfoldable pub name_found : Natives → Bool → Option JavaLocation → Option MethodName
name_found natives line_number none = none
name_found natives line_number (some l) =
    name_location natives line_number l (natives.method_info l.methodid)

-- `locations.get((int) locationInfo.pc)`
unfoldable pub location_at : ℤ → JavaProfileData → Option JavaLocation
location_at (negsuc n) d = none
location_at (pos i) d = get_elem? d.locations i

unfoldable pub get_method_name : Natives → ℕ → Bool → JavaProfileData → Option MethodName
get_method_name natives pc line_number d =
    name_found natives line_number (location_at (to_int pc) d)

abbrev Starts : Entry → Entry → Type 0
Starts e f = int_le e.start_location f.start_location ≡ true

-- The entries stand in the order of where they start.
abbrev pub IsSorted : List Entry → Type 0
IsSorted [] = Unit {0}
IsSorted (e ∷ es) = All (Starts e) es × IsSorted es

-- The line of the last entry that starts at `line` or before it, after which every entry starts later,
-- or `found` if there is none.
abbrev pub IsLineOf : List Entry → ℤ → ℤ → ℤ → Type 0
IsLineOf es line found n =
    (All (λ (e : Entry). int_le e.start_location line ≡ false) es × (n ≡ found))
    ⊎ ((e : Entry) × (i : ℕ) × (get_elem? es i ≡ some e)
        × (int_le e.start_location line ≡ true)
        × All (λ (f : Entry). int_le f.start_location line ≡ false) (drop (suc i) es)
        × (n ≡ e.line_number))

Starts-later :
    (e : Entry) (es : List Entry) (line : ℤ)
    → int_le e.start_location line ≡ false
    → All (Starts e) es
    → All (λ (f : Entry). int_le f.start_location line ≡ false) es
Starts-later e [] line h v = tt
Starts-later e (f ∷ es) line h v = (
  ground (arith, int_le_trans e.start_location f.start_location line, h, v.0),
  Starts-later e es line h v.1,
)

-- One more entry in front, which starts at `line` or before it.
in_front-IsLineOf :
    (e : Entry) (es : List Entry) (line found n : ℤ)
    → int_le e.start_location line ≡ true
    → IsLineOf es line e.line_number n
    → IsLineOf (e ∷ es) line found n
unfolding get_elem? drop
in_front-IsLineOf e es line found n here (inl (after, same)) = inr (e, 0, refl, here, after, same)
in_front-IsLineOf e es line found n here (inr (f, i, at', before, after, same)) =
    inr (f, suc i, at', before, after, same)

source_line-IsLineOf :
    (es : List Entry) (line found : ℤ)
    → IsSorted es
    → (n : ℤ) × (source_line line found (pairs es) ≡ some n) × IsLineOf es line found n
unfolding source_line pairs
source_line-IsLineOf [] line found v = (found, refl, inl (tt, refl))
source_line-IsLineOf (e ∷ es) line found v = elim (Bool-cases (int_le e.start_location line)) [
  | inr after ↦ (found, rw after refl, inl ((after, Starts-later e es line after v.0), refl))
  | inl here ↦
      let (n, run, h) = source_line-IsLineOf es line e.line_number v.1 in
      (n, rw here run, in_front-IsLineOf e es line found n here h)
]

-- For a number below 2 ^ 31 that has a location, with a method whose four texts are known and whose
-- line table is the array of entries in the order of where they start, the name with line number is
-- the texts, the location's line and the source line of the last entry that starts at it or before
-- it, after which every entry starts later, and without source line if there is none or if that
-- line is -1.
pub get_method_name-IsLineOf :
    (natives : Natives) (d : JavaProfileData) (pc : ℕ) (l : JavaLocation) (a b c e : List ℕ)
    (es : List Entry)
    → pc < 2 ^ 31
    → get_elem? d.locations pc ≡ some l
    → natives.method_info l.methodid ≡ some (a ∷ b ∷ c ∷ e ∷ [])
    → natives.line_number_table l.methodid ≡ some (pairs es)
    → IsSorted es
    → (n : ℤ) × (get_method_name natives pc true d
        ≡ some (method_name (a ++ (b ++ (c ++ e))) (some l.line) (shown_source n)))
      × IsLineOf es l.line (negsuc 0) n
unfolding get_method_name location_at name_found name_location with_line with_source
get_method_name-IsLineOf natives d pc l a b c e es small known named lines v =
    let (n, run, h) = source_line-IsLineOf es l.line (negsuc 0) v in
    (n, rw (to_int-small pc small, known, named, lines, run) refl, h)

-- ===== src/Agent/MethodInfo.antt =====
-- `Profiler.getMethodInfo0` of agent.cpp.
use javaprofiler.Base.{
  ℕ, ◌+◌, ◌≡◌, ◌≢◌, refl, ap, Bool, true, false, ◌&&◌, Option, none, some, List, [], ◌∷◌, set,
  replicate, ◌==◌, if◌then◌else◌, arith,
}
use javaprofiler.Run.{Run, ok, fault, out_of_bounds, ◌>>=◌, Returns}
use javaprofiler.Agent.{Agent, jvmti_deallocate}
use javaprofiler.Agent.Memory.{count, jvmti_deallocate-count}

-- A C string in a block that JVMTI allocated. `made` says whether `NewStringUTF` has memory for it.
pub record Text : Type 0 where
  pub ptr : ℕ
  pub chars : List ℕ
  pub made : Bool

-- The JVM's answers. A pointer that JVMTI leaves null is `none`; `class_found`, `empty_made` and
-- `array_made` say whether `FindClass`, `NewStringUTF("")` and `NewObjectArray` succeed, and `free_err`
-- is what `Deallocate` returns.
pub record Answers : Type 0 where
  pub name : Option Text
  pub sig : Option Text
  pub gsig : Option Text
  pub class_err : ℕ
  pub class_signature : Option Text
  pub class_found : Bool
  pub empty_made : Bool
  pub array_made : Bool
  pub free_err : ℕ

-- JVMTI allocates a block for each text that it returns.
abbrev pub allocate : Option Text → Agent → Agent
allocate none a = a
allocate (some t) a = record a { live = t.ptr ∷ a.live }

-- `GetClassSignature` is called only if `GetMethodDeclaringClass` succeeded.
abbrev pub class_name : Answers → Option Text
class_name m = if m.class_err == 0 then m.class_signature else none

-- The array of four empty strings, or null. The code does not look for the exception that a failure
-- leaves pending, and a further JNI call with an exception pending is undefined behaviour.
unfoldable pub new_array : Answers → Run (Option (List (List ℕ)))
new_array m =
    if m.class_found && m.empty_made
    then ok (if m.array_made then some (replicate 4 []) else none)
    else fault out_of_bounds

-- `if (text) env->SetObjectArrayElement(ret, i, env->NewStringUTF(text))`
unfoldable pub set_text : ℕ → Option Text → Option (List (List ℕ)) → Run (Option (List (List ℕ)))
set_text i none array = ok array
set_text i (some t) none = fault out_of_bounds
set_text i (some t) (some array) =
    if t.made then ok (some (set array i t.chars)) else fault out_of_bounds

abbrev pub free_text : ℕ → Option Text → Agent → Run Agent
free_text err none a = ok a
free_text err (some t) a = jvmti_deallocate t.ptr err a

-- The state after the JVMTI calls.
abbrev pub allocated : Answers → Agent → Agent
allocated m a = allocate (class_name m) (allocate m.gsig (allocate m.sig (allocate m.name a)))

-- The array of the four strings.
unfoldable pub texts : Answers → Run (Option (List (List ℕ)))
texts m = do
  array ← new_array m
  array₀ ← set_text 0 (class_name m) array
  array₁ ← set_text 1 m.name array₀
  array₂ ← set_text 2 m.sig array₁
  set_text 3 m.gsig array₂

unfoldable pub get_method_info0 : Answers → Agent → Run (Option (List (List ℕ)) × Agent)
get_method_info0 m a = do
  array ← texts m
  a₁ ← free_text m.free_err (class_name m) (allocated m a)
  a₂ ← free_text m.free_err m.name a₁
  a₃ ← free_text m.free_err m.sig a₂
  a₄ ← free_text m.free_err m.gsig a₃
  ok (array, a₄)

abbrev pub chars_or_empty : Option Text → List ℕ
chars_or_empty none = []
chars_or_empty (some t) = t.chars

-- How often a text's block is at an address.
abbrev pub block : Option Text → ℕ → ℕ
block none q = 0
block (some t) q = if t.ptr == q then 1 else 0

abbrev pub IsBlock : Option Text → Type 0
IsBlock none = Unit {0}
IsBlock (some t) = t.ptr ≢ 0

allocate-count :
    (o : Option Text) (a : Agent) (q : ℕ) → count q (allocate o a).live ≡ block o q + count q a.live
unfolding count
allocate-count none a q = omega arith
allocate-count (some t) a q = refl

-- Freeing a text whose block is among those that are live.
free_text-count :
    (err : ℕ) (o : Option Text) (a : Agent) (rest : ℕ → ℕ)
    → IsBlock o
    → ((q : ℕ) → count q a.live ≡ block o q + rest q)
    → Returns (free_text err o a) λ a'. (q : ℕ) → count q a'.live ≡ rest q
free_text-count err none a rest v h = (a, refl, λ q. omega (arith, h q))
free_text-count err (some t) a rest v h =
    let (a', run, gone) = jvmti_deallocate-count t.ptr err a v (ground (arith, h t.ptr)) in
    (a', run, λ q. omega (arith, gone q, h q))

class_name-IsBlock : (m : Answers) → IsBlock m.class_signature → IsBlock (class_name m)
class_name-IsBlock m v = pick (m.class_err == 0) m.class_signature v
  where
    pick : (b : Bool) (o : Option Text) → IsBlock o → IsBlock (if b then o else none)
    pick true o h = h
    pick false o h = tt

-- There is memory for the string.
abbrev pub IsMade : Option Text → Type 0
IsMade none = Unit {0}
IsMade (some t) = t.made ≡ true

abbrev with_text : ℕ → Option Text → List (List ℕ) → List (List ℕ)
with_text i none array = array
with_text i (some t) array = set array i t.chars

set_text-made :
    (i : ℕ) (o : Option Text) (array : List (List ℕ))
    → IsMade o
    → set_text i o (some array) ≡ ok (some (with_text i o array))
unfolding set_text
set_text-made i none array v = refl
set_text-made i (some t) array v = rw v refl

class_name-IsMade : (m : Answers) → IsMade m.class_signature → IsMade (class_name m)
class_name-IsMade m v = pick (m.class_err == 0) m.class_signature v
  where
    pick : (b : Bool) (o : Option Text) → IsMade o → IsMade (if b then o else none)
    pick true o h = h
    pick false o h = tt

-- The four strings that Java expects.
abbrev pub four_texts : Answers → List (List ℕ)
four_texts m =
    chars_or_empty (class_name m)
    ∷ chars_or_empty m.name
    ∷ chars_or_empty m.sig
    ∷ chars_or_empty m.gsig
    ∷ []

with_texts-eq :
    (m : Answers)
    → with_text 3 m.gsig
        (with_text 2 m.sig (with_text 1 m.name (with_text 0 (class_name m) (replicate 4 []))))
      ≡ four_texts m
unfolding replicate set
with_texts-eq m = ground arith

-- There is memory for the array and its strings.
abbrev pub HasMemory : Answers → Type 0
HasMemory m =
    (m.class_found ≡ true)
    × (m.empty_made ≡ true)
    × (m.array_made ≡ true)
    × IsMade m.class_signature
    × IsMade m.name
    × IsMade m.sig
    × IsMade m.gsig

texts-eq : (m : Answers) → HasMemory m → texts m ≡ ok (some (four_texts m))
unfolding texts new_array
texts-eq m (found, empty, made, c, n, s, g) =
    let a₀ = with_text 0 (class_name m) (replicate 4 []) in
    let a₁ = with_text 1 m.name a₀ in
    let a₂ = with_text 2 m.sig a₁ in
    rw
      (
        found,
        empty,
        made,
        set_text-made 0 (class_name m) (replicate 4 []) (class_name-IsMade m c),
        set_text-made 1 m.name a₀ n,
        set_text-made 2 m.sig a₁ s,
        set_text-made 3 m.gsig a₂ g,
      )
      (ap (λ (xs : List (List ℕ)). ok (some xs)) (with_texts-eq m))

-- Where the texts that the JVM gives are at addresses that are not null, the class String is found
-- and there is memory for the array and its strings, Java gets the class, the name, the signature
-- and the generic signature, each empty where the JVM gave none, and every block that the JVM
-- allocated is freed.
pub get_method_info0-texts :
    (m : Answers) (a : Agent)
    → IsBlock m.class_signature
    → IsBlock m.name
    → IsBlock m.sig
    → IsBlock m.gsig
    → HasMemory m
    → Returns
        (get_method_info0 m a)
        λ r. (r.0 ≡ some (four_texts m)) × ((q : ℕ) → count q r.1.live ≡ count q a.live)
unfolding get_method_info0
get_method_info0-texts m a vc vn vs vg memory =
    let base : (q : ℕ) → ℕ = λ q. count q a.live in
    let total : (q : ℕ)
        → count q (allocated m a).live
          ≡ block (class_name m) q
            + (block m.name q + (block m.sig q + (block m.gsig q + base q))) =
      λ q. omega (
        arith,
        allocate-count (class_name m) (allocate m.gsig (allocate m.sig (allocate m.name a))) q,
        allocate-count m.gsig (allocate m.sig (allocate m.name a)) q,
        allocate-count m.sig (allocate m.name a) q,
        allocate-count m.name a q,
      ) in
    let (a₁, run₁, h₁) =
      free_text-count m.free_err (class_name m) (allocated m a)
        (λ q. block m.name q + (block m.sig q + (block m.gsig q + base q)))
        (class_name-IsBlock m vc) total in
    let (a₂, run₂, h₂) =
      free_text-count m.free_err m.name a₁ (λ q. block m.sig q + (block m.gsig q + base q)) vn h₁ in
    let (a₃, run₃, h₃) = free_text-count m.free_err m.sig a₂ (λ q. block m.gsig q + base q) vs h₂ in
    let (a₄, run₄, h₄) = free_text-count m.free_err m.gsig a₃ base vg h₃ in
    ((some (four_texts m), a₄), rw (texts-eq m memory, run₁, run₂, run₃, run₄), (refl, h₄))

-- ===== src/ProfileData/State.antt =====
-- `ProfileData::GetCurrentState` of profiledata.cc.
use javaprofiler.Base.{
  ℕ, zero, suc, ◌-◌, ◌%◌, ◌^◌, ◌≡◌, ◌≢◌, refl, ℤ, Bool, true, false, Option, none, some, List, [],
  ◌∷◌, ◌++◌, length, take, replicate, set, All, arith, ◌==◌, if◌then◌else◌,
}
use javaprofiler.Run.{Run, ok, fault, out_of_bounds, Returns}
use javaprofiler.ProfileData.{World, enabled}
use javaprofiler.ProfileData.Emit.{IsOpen-enabled}
use javaprofiler.ProfileData.Tracks.{Tracks}

-- `struct State`; `profile_name` is the whole array.
pub record State : Type 0 where
  pub enabled : Bool
  pub start_time : ℕ
  pub profile_name : List ℕ
  pub samples_gathered : ℕ

-- `sizeof(state->profile_name)`
abbrev pub name_size : ℕ
name_size = 1024

-- `strncpy(dst, src, size)` over an array of `size` characters; `src` is a C string.
unfoldable pub strncpy : ℕ → List ℕ → List ℕ
strncpy size src = take size src ++ replicate (size - length src) 0

-- The C string that starts an array.
unfoldable pub c_string : List ℕ → List ℕ
c_string [] = []
c_string (c ∷ cs) = if c == 0 then [] else c ∷ c_string cs

-- `strncpy` with the terminator stored at the last place.
unfoldable pub copy_name : ℕ → List ℕ → List ℕ
copy_name last src = set (strncpy (suc last) src) last 0

enabled_state : Option (List ℕ) → World → State → Run State
enabled_state none w state = fault out_of_bounds
enabled_state (some fname) w state = ok (record {
  enabled = true;
  start_time = w.profile.start_time;
  samples_gathered = w.profile.count;
  profile_name = copy_name 1023 fname;
})

unfoldable pub get_current_state : World → State → Run State
unfolding enabled_state
get_current_state w state =
    if enabled w
    then enabled_state w.profile.fname w state
    else ok (record {
      enabled = false;
      start_time = 0;
      samples_gathered = 0;
      profile_name = set state.profile_name 0 0;
    })

c_string-copy_name :
    (last : ℕ) (src : List ℕ)
    → All (λ (c : ℕ). c ≢ 0) src
    → c_string (copy_name last src) ≡ take last src
unfolding copy_name strncpy c_string take replicate set
c_string-copy_name zero [] h = refl
c_string-copy_name (suc n) [] h = let all : suc (suc n) - 0 ≡ suc (suc n) = omega arith in rw all
c_string-copy_name zero (c ∷ src) h = refl
c_string-copy_name (suc n) (c ∷ src) h =
    let less : suc (suc n) - suc (length src) ≡ suc n - length src = omega arith in
    rw less (ground (arith, h.0, c_string-copy_name n src h.1))

c_string-cleared : (name : List ℕ) → c_string (set name 0 0) ≡ []
unfolding c_string set
c_string-cleared [] = refl
c_string-cleared (c ∷ cs) = refl

-- GetCurrentState of an enabled collector whose path has no zero character returns, and gives that
-- it is enabled, the number of samples as a 32-bit pattern, and the path cut to 1023 characters.
pub get_current_state-Tracks :
    (path : List ℕ) (frequency : ℤ) (stacks : List (List ℕ)) (w : World) (state : State)
    → Tracks path frequency stacks w
    → All (λ (c : ℕ). c ≢ 0) path
    → Returns (get_current_state w state) λ s.
      (s.enabled ≡ true)
      × (s.samples_gathered ≡ length stacks % 2 ^ 32)
      × (c_string s.profile_name ≡ take 1023 path)
unfolding get_current_state
get_current_state-Tracks path frequency stacks w state t h = (
  record {
    enabled = true;
    start_time = w.profile.start_time;
    samples_gathered = w.profile.count;
    profile_name = copy_name 1023 path;
  },
  rw (IsOpen-enabled path w t.opened, t.named),
  (refl, t.counted, c_string-copy_name 1023 path h),
)

-- The state of a disabled one is empty, whatever the caller's structure held.
pub get_current_state-disabled :
    (w : World) (state : State)
    → enabled w ≡ false
    → Returns (get_current_state w state) λ s.
      (s.enabled ≡ false)
      × (s.samples_gathered ≡ 0)
      × (s.start_time ≡ 0)
      × (c_string s.profile_name ≡ [])
unfolding get_current_state
get_current_state-disabled w state off = (
  record {
    enabled = false;
    start_time = 0;
    samples_gathered = 0;
    profile_name = set state.profile_name 0 0;
  },
  rw off,
  (refl, refl, refl, c_string-cleared state.profile_name),
)

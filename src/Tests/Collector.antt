-- ===== src/Tests/Collector.antt =====
-- The theorems about `Start`, `Add`, `FlushTable`, `Stop` and `GetCurrentState` at concrete inputs.
use javaprofiler.Base.{
  ℕ, ◌%◌, ◌^◌, ◌≡◌, ◌≢◌, refl, pos, List, [], ◌∷◌, length, take, replicate, All, true, false,
  list_eq, arith,
}
use javaprofiler.Run.{Returns, ◌>>=◌}
use javaprofiler.ProfileData.{start}
use javaprofiler.ProfileData.Stop.{stop}
use javaprofiler.ProfileData.FlushTable.{flush_table}
use javaprofiler.ProfileData.Add.{add, limit_depth}
use javaprofiler.ProfileData.Session.Single.{IsSingle, run-IsSingle}
use javaprofiler.ProfileData.Tracks.{Tracks}
use javaprofiler.ProfileData.Tracks.Add.{add-Tracks}
use javaprofiler.ProfileData.Tracks.Control.{start-Tracks, Finished, stop-Finished}
use javaprofiler.ProfileData.Tracks.Flush.{Flushed, flush_table-Flushed}
use javaprofiler.ProfileData.Session.{Call, samples, flushes, run, session, added}
use javaprofiler.ProfileData.Session.Exact.{IsValid, session-Finished}
use javaprofiler.ProfileData.State.{
  State, get_current_state, c_string, get_current_state-Tracks, get_current_state-disabled,
}
use javaprofiler.Reader.RoundTrip.{ReadsBack, session-ReadsBack}
use javaprofiler.Tests.{
  path, stack, stack-words, stack-IsCall, disabled_world, disabled_world-off, running_world,
  running_world-Tracks,
}

-- The same stack twice, with a flush between, and a second stack.
abbrev pub calls : List Call
calls = samples 2 stack ∷ flushes ∷ samples 2 stack ∷ samples 1 stack ∷ []

pub calls-IsValid : All IsValid calls
calls-IsValid = (
  ((omega arith), omega arith, stack-words),
  (tt, ((omega arith, omega arith, stack-words), ((omega arith, omega arith, stack-words), tt))),
)

pub not_zero : pos 50 ≢ pos 0
not_zero = λ e. absurd (ground arith)

session-ReadsBack_example :
    Returns
      (session path (pos 50) calls disabled_world)
      λ w'. ReadsBack (added calls []) (w'.os.files path)
session-ReadsBack_example =
    session-ReadsBack path (pos 50) calls disabled_world 5 disabled_world-off refl not_zero tt
      calls-IsValid (omega arith)

session-Finished_example :
    Returns (session path (pos 50) calls disabled_world) (Finished path (pos 50) (added calls []))
session-Finished_example =
    session-Finished path (pos 50) calls disabled_world 5 disabled_world-off refl not_zero tt
      calls-IsValid (omega arith)

start-Tracks_example :
    Returns (start path (pos 50) disabled_world) λ r. (r.0 ≡ true) × Tracks path (pos 50) [] r.1
start-Tracks_example =
    start-Tracks path (pos 50) disabled_world 5 disabled_world-off refl not_zero tt

add-Tracks_example :
    Returns
      (add (pos 2) stack running_world)
      (Tracks path (pos 50) (take (limit_depth 2) stack ∷ []))
add-Tracks_example =
    add-Tracks path (pos 50) [] running_world running_world-Tracks 2 stack stack-IsCall

-- The collector with one sample in its table.
sampled_world :
    Returns
      (add (pos 2) stack running_world)
      (Tracks path (pos 50) (take (limit_depth 2) stack ∷ []))
sampled_world = add-Tracks path (pos 50) [] running_world running_world-Tracks 2 stack stack-IsCall

abbrev sampled : List (List ℕ)
sampled = take (limit_depth 2) stack ∷ []

run-IsSingle_example : Returns (start path (pos 50) disabled_world >>= λ r. run calls r.1) IsSingle
run-IsSingle_example =
    run-IsSingle path (pos 50) calls disabled_world 5 disabled_world-off refl not_zero tt
      calls-IsValid (omega arith)

stop-Finished_example : Returns (stop sampled_world.0) λ w'.
    Finished path (pos 50) sampled w'
    × ((q : List ℕ) → list_eq path q ≡ false → w'.os.files q ≡ sampled_world.0.os.files q)
stop-Finished_example = stop-Finished path (pos 50) sampled sampled_world.0 sampled_world.2

flush_table-Flushed_example : Returns (flush_table sampled_world.0) (Flushed path (pos 50) sampled)
flush_table-Flushed_example =
    flush_table-Flushed path (pos 50) sampled sampled_world.0 sampled_world.2

-- What the caller's structure held before.
abbrev state : State
state = record {
  enabled = true;
  start_time = 9;
  profile_name = replicate 1024 65;
  samples_gathered = 8;
}

path-chars : All (λ (c : ℕ). c ≢ 0) path
path-chars = (omega arith, (omega arith, (omega arith, (omega arith, tt))))

get_current_state-Tracks_example : Returns (get_current_state sampled_world.0 state) λ s.
    (s.enabled ≡ true)
    × (s.samples_gathered ≡ length sampled % 2 ^ 32)
    × (c_string s.profile_name ≡ take 1023 path)
get_current_state-Tracks_example =
    get_current_state-Tracks path (pos 50) sampled sampled_world.0 state sampled_world.2 path-chars

get_current_state-disabled_example : Returns (get_current_state disabled_world state) λ s.
    (s.enabled ≡ false)
    × (s.samples_gathered ≡ 0)
    × (s.start_time ≡ 0)
    × (c_string s.profile_name ≡ [])
get_current_state-disabled_example =
    get_current_state-disabled disabled_world state disabled_world-off

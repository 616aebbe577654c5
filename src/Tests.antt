-- ===== src/Tests.antt =====
-- Concrete inputs for profiledata.cc, java_profiler.cc, agent.cpp and the Java reader.
pub mod Collector
pub mod Buckets
pub mod Files
pub mod Profiler
pub mod Jvmti
pub mod Java
pub mod Graph
pub mod Machine
use javaprofiler.Base.{
  ℕ, ◌<◌, ◌≤◌, ◌+◌, ◌≡◌, refl, ℤ, pos, length, List, [], ◌∷◌, Option, none, some, Bool, true, false,
  All, arith, word_mod,
}
use javaprofiler.Slot.{IsSlot}
use javaprofiler.Os.{Os, WriteResult, interrupted, wrote, opened}
use javaprofiler.ProfileData.{World, new_profile, started, enabled}
use javaprofiler.ProfileData.Add.{limit_depth}
use javaprofiler.ProfileData.Tracks.{Tracks}
use javaprofiler.ProfileData.Tracks.Add.{IsCall}
use javaprofiler.ProfileData.Tracks.Control.{started-Tracks}
use javaprofiler.JavaProfiler.{Process, Frame, Signal, blank, enabling, path_size}
use javaprofiler.JavaProfiler.Phase.{IsIdle, IsActive}

-- The path "prof".
abbrev pub path : List ℕ
path = 112 ∷ 114 ∷ 111 ∷ 102 ∷ []

-- The first `write` is interrupted, and the second takes 3 bytes.
abbrev pub script : List WriteResult
script = interrupted ∷ wrote 3 ∷ []

abbrev pub system : Os
system = record {
  files = λ q. [];
  fds = λ fd. none;
  opens = some 5 ∷ [];
  writes = script;
  now = 1000;
  console = [];
}

abbrev pub disabled_world : World
disabled_world = record { profile = new_profile; os = system }

pub disabled_world-off : enabled disabled_world ≡ false
unfolding enabled new_profile
disabled_world-off = refl

-- The collector after a start.
abbrev pub running_world : World
running_world = started 5 path (pos 50) (opened 5 path system)

pub running_world-Tracks : Tracks path (pos 50) [] running_world
running_world-Tracks = started-Tracks path (pos 50) 5 system tt

-- The slots of one frame: a method and a line.
abbrev pub stack : List ℕ
stack = 7 ∷ 12 ∷ []

pub stack-words : All IsSlot stack
stack-words = (omega arith, (omega arith, tt))

pub stack-IsCall : IsCall 2 stack []
stack-IsCall = record {
  pos = omega arith;
  long = omega arith;
  words = stack-words;
  countable = omega arith;
}

abbrev pub idle_process : Process
idle_process = record {
  world = disabled_world;
  sigprof = blank;
  old_handler = blank;
  timer = 0;
  auto_started = false;
  profile_path = [];
  jvm_started = true;
}

pub idle_process-IsIdle : IsIdle idle_process
idle_process-IsIdle = record {
  off = disabled_world-off;
  timer = refl;
  reliable = tt;
  path_fits = omega arith;
}

abbrev pub running_process : Process
running_process = record idle_process { world = running_world; sigprof = enabling; timer = 20000 }

pub running_process-IsActive : IsActive path [] running_process
running_process-IsActive = record {
  tracks = running_world-Tracks;
  sigprof = refl;
  timer = refl;
  path_fits = omega arith;
}

-- A signal that finds one frame.
abbrev pub signal : Signal
signal = record {
  attach_result = pos 0;
  context = true;
  num_frames = pos 1;
  storage = record { lineno = pos 12; method_id = 7 } ∷ [];
}

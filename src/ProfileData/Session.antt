-- ===== src/ProfileData/Session.antt =====
-- A profiling session on one collector: a start, any calls of `Add` and `FlushTable` in any order,
-- and a stop, one after another.
pub mod Exact
pub mod Single
use javaprofiler.Base.{
  ℕ, ◌+◌, ◌<◌, ◌≡◌, refl, ℤ, pos, List, [], ◌∷◌, length, take, All, word_mod, if◌then◌else◌, Bool,
  true, false,
}
use javaprofiler.Run.{Run, ok, fault, ◌>>=◌, Returns}
use javaprofiler.ProfileData.{World, start}
use javaprofiler.ProfileData.Stop.{stop}
use javaprofiler.ProfileData.FlushTable.{flush_table}
use javaprofiler.ProfileData.Add.{add, limit_depth}

-- A call between `Start` and `Stop`; `samples` carries the arguments of `Add`.
pub data Call : Type 0 where
  samples : ℕ → List ℕ → Call
  flushes : Call

unfoldable pub step : Call → World → Run World
step (samples depth stack) w = add (pos depth) stack w
step flushes w = flush_table w

unfoldable pub run : List Call → World → Run World
run [] w = ok w
run (c ∷ cs) w = step c w >>= run cs

-- A whole session; the caller goes on only if `Start` returned true.
unfoldable pub session : List ℕ → ℤ → List Call → World → Run World
session path frequency calls w =
    start path frequency w >>= λ r. if r.0 then (run calls r.1 >>= stop) else ok r.1

-- The stacks that a session adds, latest first, each limited to `kMaxStackDepth` slots.
unfoldable pub added : List Call → List (List ℕ) → List (List ℕ)
added [] acc = acc
added (samples depth stack ∷ cs) acc = added cs (take (limit_depth depth) stack ∷ acc)
added (flushes ∷ cs) acc = added cs acc

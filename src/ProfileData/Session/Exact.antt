-- ===== src/ProfileData/Session/Exact.antt =====
-- The file of a session of profiledata.cc, and the session's samples.
use javaprofiler.Base.{
  ℕ, ◌+◌, ◌≤◌, ◌<◌, ◌≡◌, ◌≢◌, refl, ℤ, pos, List, [], ◌∷◌, length, All, word_mod, false, some,
  arith,
}
use javaprofiler.Run.{Returns}
use javaprofiler.Slot.{IsSlot}
use javaprofiler.Os.{open_answer}
use javaprofiler.Os.FdWrite.{IsReliable}
use javaprofiler.ProfileData.{World, enabled}
use javaprofiler.ProfileData.Add.{limit_depth}
use javaprofiler.ProfileData.Tracks.{Tracks}
use javaprofiler.ProfileData.Tracks.Add.{IsCall, add-Tracks}
use javaprofiler.ProfileData.Tracks.Flush.{flush_table-Flushed}
use javaprofiler.ProfileData.Tracks.Control.{start-Tracks, Finished, stop-Finished}
use javaprofiler.ProfileData.Session.{Call, samples, flushes, step, run, session, added}

-- The precondition of `Add`: a positive depth, an array that long, and slots that are words.
abbrev pub IsValid : Call → Type 0
IsValid (samples depth stack) = (0 < depth) × (limit_depth depth ≤ length stack) × All IsSlot stack
IsValid flushes = Unit {0}

pub run-Tracks :
    (path : List ℕ) (frequency : ℤ) (calls : List Call) (before : List (List ℕ)) (w : World)
    → Tracks path frequency before w
    → All IsValid calls
    → length before + length calls < word_mod
    → Returns (run calls w) (Tracks path frequency (added calls before))
unfolding run step added
run-Tracks path frequency [] before w t v h = (w, refl, t)
run-Tracks path frequency (samples depth stack ∷ cs) before w t v h =
    let c : IsCall depth stack before = record {
      pos = v.0.0;
      long = v.0.1;
      words = v.0.2;
      countable = omega arith;
    } in
    let (w₁, run₁, t₁) = add-Tracks path frequency before w t depth stack c in
    rw run₁ (run-Tracks path frequency cs _ w₁ t₁ v.1 (omega arith))
run-Tracks path frequency (flushes ∷ cs) before w t v h =
    let (w₁, run₁, f) = flush_table-Flushed path frequency before w t in
    rw run₁ (run-Tracks path frequency cs before w₁ f.tracks v.1 (omega arith))

-- A session of Start on a disabled collector with a frequency that is not zero, fewer than 2 ^ 64
-- calls of Add and FlushTable in any order, and Stop, whose file opens, whose writes do not fail
-- and whose calls of Add have a positive depth and an array of 64-bit slots that reaches as far,
-- returns and leaves the finished file: the header, samples whose counts for each stack add up to
-- the number of times that it was added, and the end of data marker; the collector is disabled and
-- reports its counters.
pub session-Finished :
    (path : List ℕ) (frequency : ℤ) (calls : List Call) (w : World) (fd : ℕ)
    → enabled w ≡ false
    → open_answer w.os.opens ≡ some fd
    → frequency ≢ pos 0
    → IsReliable w.os.writes
    → All IsValid calls
    → length calls < word_mod
    → Returns (session path frequency calls w) (Finished path frequency (added calls []))
unfolding session
session-Finished path frequency calls w fd off answer nonzero reliable valid few =
    let (r₀, run₀, (yes', t₀)) = start-Tracks path frequency w fd off answer nonzero reliable in
    let (w₁, run₁, t₁) = run-Tracks path frequency calls [] r₀.1 t₀ valid (omega arith) in
    let (w₂, run₂, (f, _)) = stop-Finished path frequency (added calls []) w₁ t₁ in
    (w₂, rw (run₀, yes', run₁) run₂, f)

-- ===== src/ProfileData/Session/Single.antt =====
-- The hash table of profiledata.cc during a session: one entry for each stack.
use javaprofiler.Base.{
  ℕ, ◌≤◌, ◌<◌, ◌≡◌, ◌≢◌, ℤ, pos, List, [], length, All, word_mod, false, some, arith,
}
use javaprofiler.Run.{◌>>=◌, Returns}
use javaprofiler.Os.{open_answer}
use javaprofiler.Os.FdWrite.{IsReliable}
use javaprofiler.ProfileData.{World, enabled, start}
use javaprofiler.ProfileData.Placed.{table_holders}
use javaprofiler.ProfileData.Tracks.Single.{Tracks-table_holders}
use javaprofiler.ProfileData.Tracks.Control.{start-Tracks}
use javaprofiler.ProfileData.Session.{Call, run, added}
use javaprofiler.ProfileData.Session.Exact.{IsValid, run-Tracks}

-- No stack has two entries.
abbrev pub IsSingle : World → Type 0
IsSingle w = (key : List ℕ) → 0 < length key → table_holders key w.profile.hash ≤ 1

-- After Start on a disabled collector with a frequency that is not zero and fewer than 2 ^ 64 calls
-- of Add and FlushTable in any order, whose file opens, whose writes do not fail and whose calls of
-- Add have a positive depth and an array of 64-bit slots that reaches as far, the table has at most
-- one entry for every stack that is not empty.
pub run-IsSingle :
    (path : List ℕ) (frequency : ℤ) (calls : List Call) (w : World) (fd : ℕ)
    → enabled w ≡ false
    → open_answer w.os.opens ≡ some fd
    → frequency ≢ pos 0
    → IsReliable w.os.writes
    → All IsValid calls
    → length calls < word_mod
    → Returns (start path frequency w >>= λ r. run calls r.1) IsSingle
run-IsSingle path frequency calls w fd off answer nonzero reliable valid few =
    let (r₀, run₀, (yes', t₀)) = start-Tracks path frequency w fd off answer nonzero reliable in
    let (w₁, run₁, t₁) = run-Tracks path frequency calls [] r₀.1 t₀ valid (omega arith) in
    (
      w₁,
      rw run₀ run₁,
      λ key deep. Tracks-table_holders path frequency (added calls []) w₁ t₁ key deep,
    )

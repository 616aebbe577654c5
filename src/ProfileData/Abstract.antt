-- ===== src/ProfileData/Abstract.antt =====
-- What the class `ProfileData` of profiledata.h promises: its public operations on an abstract state,
-- which is a bag of stacks while the collector is enabled.
pub mod Refines
use javaprofiler.Base.{
  ℕ, Option, none, some, ◌+◌, ◌<◌, ◌≡◌, ◌≢◌, ℤ, pos, Bool, true, false, List, [], take, All,
  word_mod, if◌then◌else◌, ◌≤◌, length,
}
use javaprofiler.Run.{Run, ok, ◌>>=◌}
use javaprofiler.Slot.{IsSlot}
use javaprofiler.Os.FdWrite.{IsReliable}
use javaprofiler.ProfileData.{World, enabled, start}
use javaprofiler.ProfileData.Stop.{stop, reset}
use javaprofiler.ProfileData.FlushTable.{flush_table}
use javaprofiler.ProfileData.Add.{add, limit_depth}
use javaprofiler.ProfileData.Bag.{Bag, bag_of, insert, occurrences, size}
use javaprofiler.ProfileData.Tracks.{Tracks}

-- The public members that change the state, with their arguments.
pub data Operation : Type 0 where
  starts : List ℕ → ℤ → Operation
  adds : ℕ → List ℕ → Operation
  flushes : Operation
  stops : Operation
  resets : Operation

-- The result of `Start`; the other members have none.
unfoldable pub perform : Operation → World → Run (Option Bool × World)
perform (starts fname frequency) w = start fname frequency w >>= λ r. ok (some r.0, r.1)
perform (adds depth stack) w = add (pos depth) stack w >>= λ w'. ok (none, w')
perform flushes w = flush_table w >>= λ w'. ok (none, w')
perform stops w = stop w >>= λ w'. ok (none, w')
perform resets w = ok (none, reset w)

pub data Spec : Type 0 where
  disabled : Spec
  collecting : (path : List ℕ) (frequency : ℤ) (samples : Bag) → Spec

-- What an operation may return and do. A start may fail to open its file.
pub data Promises : Operation → Spec → Option Bool → Spec → Type 0 where
  opens :
      (path : List ℕ) (frequency : ℤ)
      → Promises
          (starts path frequency)
          disabled
          (some true)
          (collecting path frequency (bag_of []))
  refuses :
      (path : List ℕ) (frequency : ℤ)
      → Promises (starts path frequency) disabled (some false) disabled
  keeps :
      (path fname : List ℕ) (rate frequency : ℤ) (samples : Bag)
      → Promises
          (starts fname rate)
          (collecting path frequency samples)
          (some false)
          (collecting path frequency samples)
  records :
      (depth : ℕ) (stack path : List ℕ) (frequency : ℤ) (samples : Bag)
      → Promises
          (adds depth stack)
          (collecting path frequency samples)
          none
          (collecting path frequency (insert (take (limit_depth depth) stack) samples))
  writes :
      (path : List ℕ) (frequency : ℤ) (samples : Bag)
      → Promises flushes
          (collecting path frequency samples)
          none
          (collecting path frequency samples)
  finishes :
      (path : List ℕ) (frequency : ℤ) (samples : Bag)
      → Promises stops (collecting path frequency samples) none disabled
  discards :
      (path : List ℕ) (frequency : ℤ) (samples : Bag)
      → Promises resets (collecting path frequency samples) none disabled
  ignores_add : (depth : ℕ) (stack : List ℕ) → Promises (adds depth stack) disabled none disabled
  ignores_flush : Promises flushes disabled none disabled
  ignores_stop : Promises stops disabled none disabled
  ignores_reset : Promises resets disabled none disabled

-- What the caller owes: a frequency that is not zero, and for `Add` on an enabled collector a positive
-- depth, an array that reaches as far, and a number of samples that fits.
abbrev pub IsAllowed : Operation → Spec → Type 0
IsAllowed (starts fname frequency) s = frequency ≢ pos 0
IsAllowed (adds depth stack) disabled = Unit {0}
IsAllowed (adds depth stack) (collecting path frequency samples) =
    (0 < depth)
    × (limit_depth depth ≤ length stack)
    × All IsSlot stack
    × (size samples + 1 < word_mod)
IsAllowed flushes s = Unit {0}
IsAllowed stops s = Unit {0}
IsAllowed resets s = Unit {0}

-- The abstract state that the members represent, where no write to come fails.
abbrev pub Represents : Spec → World → Type 0
Represents disabled w = (enabled w ≡ false) × IsReliable w.os.writes
Represents (collecting path frequency samples) w =
    (stacks : List (List ℕ)) × (bag_of stacks ≡ samples) × Tracks path frequency stacks w

-- ===== src/ProfileData/Tracks/Single.antt =====
-- The invariant of an enabled collector of profiledata.cc, and the number of entries for a stack.
use javaprofiler.Base.{ℕ, ◌≤◌, ◌<◌, ℤ, List, length, arith}
use javaprofiler.ProfileData.{World}
use javaprofiler.ProfileData.Placed.{table_holders, table_holders-le}
use javaprofiler.ProfileData.Tracks.{Tracks}
use javaprofiler.ProfileData.Tracks.Add.{hash_stack-returns}

-- While the invariant of an enabled collector holds, the table has at most one entry for every
-- stack that is not empty.
pub Tracks-table_holders :
    (path : List ℕ) (frequency : ℤ) (samples : List (List ℕ)) (w : World)
    → Tracks path frequency samples w
    → (key : List ℕ) → 0 < length key
    → table_holders key w.profile.hash ≤ 1
Tracks-table_holders path frequency samples w t key deep =
    let (h, hashed, _) = hash_stack-returns (length key) key 0 (omega arith) in
    table_holders-le key h deep hashed 0 w.profile.hash t.placed

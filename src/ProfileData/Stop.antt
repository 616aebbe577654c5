-- ===== src/ProfileData/Stop.antt =====
-- `ProfileData::Stop` and `ProfileData::Reset` of profiledata.cc.
use javaprofiler.Base.{ℕ, ◌+◌, Option, none, some, List, [], ◌∷◌, ltb, if◌then◌else◌}
use javaprofiler.Run.{Run, ok, ◌>>=◌}
use javaprofiler.Os.{Os, stop_report, close_file, print}
use javaprofiler.ProfileData.{
  Bucket, ProfileData, World, num_evicted, enabled, buffer_length, push_slot, evict, flush_evicted,
}

-- The inner loop of `Stop`, over the entries of a bucket, and the outer one.
unfoldable pub evict_bucket : Bucket → World → Run World
evict_bucket [] w = ok w
evict_bucket (e ∷ es) w = (if ltb 0 e.count then evict e w else ok w) >>= evict_bucket es

unfoldable pub evict_table : List Bucket → World → Run World
evict_table [] w = ok w
evict_table (b ∷ bs) w = evict_bucket b w >>= evict_table bs

close_out : Option ℕ → Os → Os
close_out none os = os
close_out (some fd) os = close_file fd os

-- The members that `Reset` clears; the counters stay.
abbrev pub cleared : ProfileData → ProfileData
cleared p = record p { hash = []; evict = []; out = none; fname = none; start_time = 0 }

unfoldable pub reset : World → World
unfolding close_out
reset w =
    if enabled w
    then record { profile = cleared w.profile; os = close_out w.profile.out w.os }
    else w

-- The end of data marker, with the guard that makes room for it.
unfoldable pub write_trailer : World → Run World
write_trailer w = do
  w₁ ← (if ltb buffer_length (num_evicted w + 3) then flush_evicted w else ok w)
  w₂ ← push_slot 0 w₁
  w₃ ← push_slot 1 w₂
  w₄ ← push_slot 0 w₃
  flush_evicted w₄

-- The report that `Stop` prints uses the counters that `Reset` leaves alone.
unfoldable pub report : World → World
report w = record w {
  os = print (stop_report w.profile.count w.profile.evictions w.profile.total_bytes) w.os;
}

unfoldable pub stop : World → Run World
stop w =
    if enabled w
    then (do w₁ ← evict_table w.profile.hash w; w₂ ← write_trailer w₁; ok (report (reset w₂)))
    else ok w

-- The destructor.
unfoldable pub destroy : World → Run World
destroy w = stop w

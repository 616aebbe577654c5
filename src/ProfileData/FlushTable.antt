-- ===== src/ProfileData/FlushTable.antt =====
-- `ProfileData::FlushTable` of profiledata.cc.
use javaprofiler.Base.{List, [], ◌∷◌, ltb, if◌then◌else◌}
use javaprofiler.Run.{Run, ok, ◌>>=◌}
use javaprofiler.ProfileData.{Entry, Bucket, World, enabled, evict, flush_evicted}

-- `FlushTable`: each live entry is evicted, and cleared in the table.
unfoldable pub flush_entry : Entry → World → Run (Entry × World)
flush_entry e w =
    if ltb 0 e.count
    then evict e w >>= (λ w'. ok (record e { depth = 0; count = 0 }, w'))
    else ok (e, w)

unfoldable pub flush_bucket : Bucket → World → Run (Bucket × World)
flush_bucket [] w = ok ([], w)
flush_bucket (e ∷ es) w = do
  (e', w₁) ← flush_entry e w
  (es', w₂) ← flush_bucket es w₁
  ok (e' ∷ es', w₂)

unfoldable pub flush_buckets : List Bucket → World → Run (List Bucket × World)
flush_buckets [] w = ok ([], w)
flush_buckets (b ∷ bs) w = do
  (b', w₁) ← flush_bucket b w
  (bs', w₂) ← flush_buckets bs w₁
  ok (b' ∷ bs', w₂)

unfoldable pub flush_table : World → Run World
flush_table w =
    if enabled w
    then (do
      (hash', w₁) ← flush_buckets w.profile.hash w
      flush_evicted (record w₁ { profile = record w₁.profile { hash = hash' } }))
    else ok w

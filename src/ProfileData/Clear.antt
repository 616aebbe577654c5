-- ===== src/ProfileData/Clear.antt =====
-- The table that `ProfileData::FlushTable` leaves.
use javaprofiler.Base.{suc, ◌≡◌, refl, ap, ◌∙◌, List, [], ◌∷◌, length, All, arith}
use javaprofiler.ProfileData.{Entry, Bucket, associativity}
use javaprofiler.ProfileData.Sample.{IsEntry, bucket_samples, table_samples, live_sample}
use javaprofiler.ProfileData.Drain.{clear_entry, clear_bucket, clear_table}
use javaprofiler.ProfileData.Tracks.{IsTable}

clear_entry-IsEntry : (e : Entry) → IsEntry e → IsEntry (clear_entry e)
clear_entry-IsEntry e v = record {
  size = ground (arith, v.size);
  shallow = ground (arith, v.shallow);
  words = ground (arith, v.words);
  word_count = ground (arith, v.word_count);
  deep = ground (arith, v.deep);
}

live_sample-clear : (e : Entry) → live_sample (clear_entry e) ≡ []
unfolding live_sample
live_sample-clear e = ground arith

clear_bucket-IsEntry : (es : Bucket) → All IsEntry es → All IsEntry (clear_bucket es)
unfolding clear_bucket
clear_bucket-IsEntry [] h = tt
clear_bucket-IsEntry (e ∷ es) h = (clear_entry-IsEntry e h.0, clear_bucket-IsEntry es h.1)

length-clear_bucket : (es : Bucket) → length (clear_bucket es) ≡ length es
unfolding clear_bucket
length-clear_bucket [] = refl
length-clear_bucket (e ∷ es) = ap suc (length-clear_bucket es)

bucket_samples-clear : (es : Bucket) → bucket_samples (clear_bucket es) ≡ []
unfolding clear_bucket bucket_samples
bucket_samples-clear [] = refl
bucket_samples-clear (e ∷ es) = rw (live_sample-clear e) (bucket_samples-clear es)

length-clear_table : (bs : List Bucket) → length (clear_table bs) ≡ length bs
unfolding clear_table
length-clear_table [] = refl
length-clear_table (b ∷ bs) = ap suc (length-clear_table bs)

clear_table-width :
    (bs : List Bucket)
    → All (λ (b : Bucket). length b ≡ associativity) bs
    → All (λ (b : Bucket). length b ≡ associativity) (clear_table bs)
unfolding clear_table
clear_table-width [] h = tt
clear_table-width (b ∷ bs) h = (length-clear_bucket b ∙ h.0, clear_table-width bs h.1)

clear_table-IsEntry : (bs : List Bucket) → All (All IsEntry) bs → All (All IsEntry) (clear_table bs)
unfolding clear_table
clear_table-IsEntry [] h = tt
clear_table-IsEntry (b ∷ bs) h = (clear_bucket-IsEntry b h.0, clear_table-IsEntry bs h.1)

pub clear_table-IsTable : (bs : List Bucket) → IsTable bs → IsTable (clear_table bs)
clear_table-IsTable bs t = record {
  rows = length-clear_table bs ∙ t.rows;
  width = clear_table-width bs t.width;
  entries = clear_table-IsEntry bs t.entries;
}

pub table_samples-clear : (bs : List Bucket) → table_samples (clear_table bs) ≡ []
unfolding clear_table table_samples
table_samples-clear [] = refl
table_samples-clear (b ∷ bs) = rw (bucket_samples-clear b) (table_samples-clear bs)

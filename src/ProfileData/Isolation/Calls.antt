-- ===== src/ProfileData/Isolation/Calls.antt =====
-- The members of `ProfileData` of profiledata.cc and the files that they leave alone.
use javaprofiler.Base.{
  ℕ, zero, suc, ◌%◌, ◌≡◌, ℤ, pos, negsuc, Bool, true, false, inl, inr, Option, none, some,
  Option-cases, ◌==◌, subst, List, [], ◌∷◌, list_eq, if◌then◌else◌, ltb,
}
use javaprofiler.Run.{ok}
use javaprofiler.Os.{Os, open_answer, open_file-some, open_file-none, close_file, opened}
use javaprofiler.ProfileData.{World, Entry, Bucket, buckets, enabled, evict, start, start_opened}
use javaprofiler.ProfileData.Stop.{stop, reset, evict_table, write_trailer, report}
use javaprofiler.ProfileData.FlushTable.{flush_table, flush_entry, flush_bucket, flush_buckets}
use javaprofiler.ProfileData.Add.{
  hash_stack, evict_victim, at_index, replace_smallest, count_hit, add_to_bucket, add_sample,
  limit_depth, add_checked, add, smallest,
}
use javaprofiler.ProfileData.Isolation.{
  Ensures, Ensures-bind, Ensures-if, anything, Apart, AllApart, print-Apart, flush_evicted-Apart,
  evict-Apart, evict_table-Apart, write_trailer-Apart,
}

-- What a call that also returns a value keeps.
abbrev pub KeepsApart : {A : Type 0} → List ℕ → List ℕ → A × World → Type 0
KeepsApart q c r = AllApart q c r.1

-- A table of descriptors with one entry changed.
either_target :
    (q p : List ℕ) (b : Bool) (new old : Option (List ℕ))
    → (new ≡ some p → list_eq p q ≡ false)
    → (old ≡ some p → list_eq p q ≡ false)
    → (if b then new else old) ≡ some p
    → list_eq p q ≡ false
either_target q p true new old h k e = h e
either_target q p false new old h k e = k e

module _ (q c : List ℕ) where
  close_file-Apart : (fd : ℕ) (os : Os) → Apart q c os → Apart q c (close_file fd os)
  unfolding close_file
  close_file-Apart fd os a = record {
    held = a.held;
    unreferred = λ f p. either_target q p (fd == f) none (os.fds f) (λ e. cc) (a.unreferred f p);
  }

  reset-Apart : (w : World) → AllApart q c w → AllApart q c (reset w)
  unfolding reset enabled
  reset-Apart w a = elim (Option-cases w.profile.out) [
    | inl closed ↦ rw closed a
    | inr (fd, out) ↦ rw out (close_file-Apart fd w.os a)
  ]

  report-Apart : (w : World) → AllApart q c w → AllApart q c (report w)
  unfolding report
  report-Apart w a = print-Apart q c _ w.os a

  pub stop-Apart : (w : World) → AllApart q c w → Ensures (AllApart q c) (stop w)
  unfolding stop
  stop-Apart w a =
      let keep = AllApart q c in
      Ensures-if keep (enabled w) _ (ok w)
        (Ensures-bind keep keep (evict_table w.profile.hash w) _
          (evict_table-Apart q c w.profile.hash w a)
          λ w₁ a₁.
            Ensures-bind keep keep (write_trailer w₁) _ (write_trailer-Apart q c w₁ a₁)
              λ w₂ a₂. report-Apart (reset w₂) (reset-Apart w₂ a₂))
        a

  flush_entry-Apart :
      (e : Entry) (w : World) → AllApart q c w → Ensures (KeepsApart q c) (flush_entry e w)
  unfolding flush_entry
  flush_entry-Apart e w a =
      Ensures-if (KeepsApart q c) (ltb 0 e.count) _ (ok (e, w))
        (Ensures-bind (AllApart q c) (KeepsApart q c) (evict e w) _ (evict-Apart q c e w a)
          λ w' h. h)
        a

  flush_bucket-Apart :
      (es : Bucket) (w : World) → AllApart q c w → Ensures (KeepsApart q c) (flush_bucket es w)
  unfolding flush_bucket
  flush_bucket-Apart [] w a = a
  flush_bucket-Apart (e ∷ es) w a =
      Ensures-bind (KeepsApart q c) (KeepsApart q c) (flush_entry e w) _ (flush_entry-Apart e w a)
        λ r h.
          Ensures-bind (KeepsApart q c) (KeepsApart q c) (flush_bucket es r.1) _
            (flush_bucket-Apart es r.1 h) λ r' h'. h'

  flush_buckets-Apart :
      (bs : List Bucket) (w : World)
      → AllApart q c w
      → Ensures (KeepsApart q c) (flush_buckets bs w)
  unfolding flush_buckets
  flush_buckets-Apart [] w a = a
  flush_buckets-Apart (b ∷ bs) w a =
      Ensures-bind (KeepsApart q c) (KeepsApart q c) (flush_bucket b w) _ (flush_bucket-Apart b w a)
        λ r h.
          Ensures-bind (KeepsApart q c) (KeepsApart q c) (flush_buckets bs r.1) _
            (flush_buckets-Apart bs r.1 h) λ r' h'. h'

  pub flush_table-Apart : (w : World) → AllApart q c w → Ensures (AllApart q c) (flush_table w)
  unfolding flush_table
  flush_table-Apart w a =
      Ensures-if (AllApart q c) (enabled w) _ (ok w)
        (Ensures-bind (KeepsApart q c) (AllApart q c) (flush_buckets w.profile.hash w) _
          (flush_buckets-Apart w.profile.hash w a) λ r h. flush_evicted-Apart q c _ h)
        a

  replace_smallest-Apart :
      (depth : ℕ) (stack : List ℕ) (b : Bucket) (w : World)
      → AllApart q c w
      → Ensures (KeepsApart q c) (replace_smallest depth stack b w)
  unfolding replace_smallest evict_victim
  replace_smallest-Apart depth stack b w a =
      Ensures-bind (λ e. Unit {0}) (KeepsApart q c) (at_index b (smallest b)) _ (anything _)
        λ e _.
          Ensures-bind (AllApart q c) (KeepsApart q c) (evict_victim e w) _
            (Ensures-if (AllApart q c) (ltb 0 e.count) _ (ok w) (evict-Apart q c e _ a) a) λ w' h. h

  add_to_bucket-Apart :
      (depth : ℕ) (stack : List ℕ) (b : Bucket) (w : World)
      → AllApart q c w
      → Ensures (KeepsApart q c) (add_to_bucket depth stack b w)
  unfolding add_to_bucket
  add_to_bucket-Apart depth stack b w a = elim (Option-cases (count_hit depth stack b)) [
    | inr (b', hit) ↦ rw (hit, add_to_bucket) a
    | inl miss ↦ rw (miss, add_to_bucket) (replace_smallest-Apart depth stack b w a)
  ]

  add_sample-Apart :
      (depth : ℕ) (stack : List ℕ) (w : World)
      → AllApart q c w
      → Ensures (AllApart q c) (add_sample depth stack w)
  unfolding add_sample
  add_sample-Apart depth stack w a =
      Ensures-bind (λ h. Unit {0}) (AllApart q c) (hash_stack depth stack 0) _ (anything _)
        λ h _.
          Ensures-bind (λ b. Unit {0}) (AllApart q c) (at_index w.profile.hash (h % buckets)) _
            (anything _)
            λ b _.
              Ensures-bind (KeepsApart q c) (AllApart q c) (add_to_bucket depth stack b _) _
                (add_to_bucket-Apart depth stack b _ a) λ r h. h

  add_checked-Apart :
      (depth : ℤ) (stack : List ℕ) (w : World)
      → AllApart q c w
      → Ensures (AllApart q c) (add_checked depth stack w)
  unfolding add_checked
  add_checked-Apart (negsuc n) stack w a = tt
  add_checked-Apart (pos zero) stack w a = tt
  add_checked-Apart (pos (suc n)) stack w a = add_sample-Apart (limit_depth (suc n)) stack w a

  pub add-Apart :
      (depth : ℤ) (stack : List ℕ) (w : World)
      → AllApart q c w
      → Ensures (AllApart q c) (add depth stack w)
  unfolding add
  add-Apart depth stack w a =
      Ensures-if (AllApart q c) (enabled w) (add_checked depth stack w) (ok w)
        (add_checked-Apart depth stack w a) a

  named : (path p : List ℕ) → some path ≡ some p → list_eq path q ≡ false → list_eq p q ≡ false
  named path p e n = let same : path ≡ p = cc in subst (λ x. list_eq x q ≡ false) same n

  opened-Apart :
      (fd : ℕ) (path : List ℕ) (os : Os)
      → list_eq path q ≡ false
      → Apart q c os
      → Apart q c (opened fd path os)
  opened-Apart fd path os n a = record {
    held = rw n a.held;
    unreferred = λ f p.
        either_target q p (fd == f) (some path) (os.fds f) (λ e. named path p e n)
          (a.unreferred f p);
  }

  start_opened-Apart :
      (fd : ℕ) (path : List ℕ) (frequency : ℤ) (w : World) (os : Os)
      → Apart q c os
      → Ensures (KeepsApart q c) (start_opened (some fd) path frequency w os)
  unfolding start_opened
  start_opened-Apart fd path (pos zero) w os a = tt
  start_opened-Apart fd path (pos (suc n)) w os a = a
  start_opened-Apart fd path (negsuc n) w os a = a

  pub start-Apart :
      (path : List ℕ) (frequency : ℤ) (w : World)
      → list_eq path q ≡ false
      → AllApart q c w
      → Ensures (KeepsApart q c) (start path frequency w)
  unfolding start start_opened
  start-Apart path frequency w n a =
      Ensures-if (KeepsApart q c) (enabled w) (ok (false, w)) _ a
        (elim (Option-cases (open_answer w.os.opens)) [
          | inl failed ↦
              rw (open_file-none path w.os failed)
                (record { held = a.held; unreferred = a.unreferred })
          | inr (fd, answer) ↦
              rw (open_file-some path w.os fd answer)
                (start_opened-Apart fd path frequency w _ (opened-Apart fd path w.os n a))
        ])

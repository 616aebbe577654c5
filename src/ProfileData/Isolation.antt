-- ===== src/ProfileData/Isolation.antt =====
-- The files that profiledata.cc leaves alone, whatever its calls return.
pub mod Calls
use javaprofiler.Base.{
  ℕ, zero, suc, ◌+◌, ◌<◌, ◌≡◌, refl, ap, sym, ◌∙◌, ℤ, pos, negsuc, Bool, true, false, Bool-cases,
  inl, inr, Option, none, some, Option-cases, List, [], ◌∷◌, ◌++◌, length, take, list_eq,
  list_eq_sound, if◌then◌else◌, ltb, leb, ◌==◌, ◌&&◌, arith,
}
use javaprofiler.Run.{Run, ok, fault, out_of_bounds, assertion_failed, ◌>>=◌}
use javaprofiler.Slot.{encode}
use javaprofiler.Os.{
  Os, WriteResult, Message, open_file, open_answer, open_file-some, open_file-none, close_file,
  fd_write, fd_write_loop, print, opened, update_fd, update_file,
}
use javaprofiler.ProfileData.{
  World, ProfileData, Entry, Bucket, enabled, flush_evicted, write_out, push_slot, push_stack,
  make_room, evict, start, start_opened, buffer_length, num_evicted, flushed, with_slots,
}
use javaprofiler.ProfileData.Stop.{
  stop, reset, evict_bucket, evict_table, write_trailer, report, destroy,
}
use javaprofiler.ProfileData.FlushTable.{flush_table, flush_entry, flush_bucket, flush_buckets}
use javaprofiler.ProfileData.Add.{add}

-- If the call returns, then with the postcondition.
abbrev pub Ensures {ℓ} : {A : Type ℓ} → (A → Type 0) → Run A → Type 0
Ensures P (fault c) = Unit {0}
Ensures P (ok x) = P x

pub Ensures-bind :
    {A B : Type 0} (P : A → Type 0) (Q : B → Type 0) (m : Run A) (f : A → Run B)
    → Ensures P m
    → ((x : A) → P x → Ensures Q (f x))
    → Ensures Q (m >>= f)
Ensures-bind P Q (fault c) f h k = tt
Ensures-bind P Q (ok x) f h k = k x h

pub Ensures-if :
    {A : Type 0} (P : A → Type 0) (b : Bool) (m k : Run A)
    → Ensures P m
    → Ensures P k
    → Ensures P (if b then m else k)
Ensures-if P true m k h g = h
Ensures-if P false m k h g = g

-- The file at `q` holds `c`, and no descriptor refers to it.
pub record Apart (q c : List ℕ) (os : Os) : Type 0 where
  pub held : os.files q ≡ c
  pub unreferred : (fd : ℕ) (p : List ℕ) → os.fds fd ≡ some p → list_eq p q ≡ false

abbrev pub AllApart : List ℕ → List ℕ → World → Type 0
AllApart q c w = Apart q c w.os

pub anything : {A : Type 0} (m : Run A) → Ensures (λ x. Unit {0}) m
anything (fault c) = tt
anything (ok x) = tt

module _ (q c : List ℕ) where
  pub print-Apart : (m : Message) (os : Os) → Apart q c os → Apart q c (print m os)
  unfolding print
  print-Apart m os a = record { held = a.held; unreferred = a.unreferred }

  written-Apart :
      (fd : ℕ) (path contents : List ℕ) (writes : List WriteResult) (os : Os)
      → Apart q c os
      → os.fds fd ≡ some path
      → Apart q c (record os { files = update_file os.files path contents; writes = writes })
  written-Apart fd path contents writes os a target =
      let other : list_eq path q ≡ false = a.unreferred fd path target in
      record { held = rw other a.held; unreferred = a.unreferred }

  fd_write-Apart :
      (fd : ℕ) (buf : List ℕ) (os : Os) → Apart q c os → Ensures (Apart q c) (fd_write fd buf os)
  unfolding fd_write
  fd_write-Apart fd [] os a = a
  fd_write-Apart fd (b ∷ buf) os a = elim (Option-cases (os.fds fd)) [
    | inl closed ↦ rw (closed, fd_write) tt
    | inr (path, target) ↦
        let loop = fd_write_loop os.writes (os.files path) (b ∷ buf) in
        rw (target, fd_write)
          (Ensures-bind (λ r. Unit {0}) (Apart q c) loop _ (anything loop)
            λ r _. written-Apart fd path r.0 r.1 os a target)
  ]

  write_out-Apart :
      (out : Option ℕ) (bytes : List ℕ) (os : Os)
      → Apart q c os
      → Ensures (Apart q c) (write_out out bytes os)
  write_out-Apart none bytes os a = tt
  write_out-Apart (some fd) bytes os a = fd_write-Apart fd bytes os a

  pub flush_evicted-Apart : (w : World) → AllApart q c w → Ensures (AllApart q c) (flush_evicted w)
  unfolding flush_evicted
  flush_evicted-Apart w a =
      Ensures-if (AllApart q c) (ltb 0 (num_evicted w)) _ (ok w)
        (Ensures-bind (Apart q c) (AllApart q c) _ (λ os. ok (flushed w os))
          (write_out-Apart w.profile.out (encode w.profile.evict) w.os a) λ os h. h)
        a

  push_slot-Apart : (v : ℕ) (w : World) → AllApart q c w → Ensures (AllApart q c) (push_slot v w)
  unfolding push_slot
  push_slot-Apart v w a =
      Ensures-if (AllApart q c) (ltb (num_evicted w) buffer_length) (ok (with_slots w (v ∷ [])))
        (fault out_of_bounds) a tt

  push_stack-Apart :
      (d : ℕ) (stack : List ℕ) (w : World)
      → AllApart q c w
      → Ensures (AllApart q c) (push_stack d stack w)
  unfolding push_stack
  push_stack-Apart d stack w a =
      Ensures-if (AllApart q c) (leb d (length stack) && leb (num_evicted w + d) buffer_length)
        (ok (with_slots w (take d stack))) (fault out_of_bounds) a tt

  make_room-Apart : (n : ℕ) (w : World) → AllApart q c w → Ensures (AllApart q c) (make_room n w)
  unfolding make_room
  make_room-Apart n w a =
      Ensures-if (AllApart q c) (ltb buffer_length (num_evicted w + n)) _ (ok w)
        (Ensures-bind (AllApart q c) (AllApart q c) (flush_evicted w) _ (flush_evicted-Apart w a)
          λ w' h.
            Ensures-if (AllApart q c) (num_evicted w' == 0) _ (fault assertion_failed)
              (Ensures-if (AllApart q c) (leb n buffer_length) (ok w') (fault assertion_failed) h
                tt)
              tt)
        a

  pub evict-Apart : (e : Entry) (w : World) → AllApart q c w → Ensures (AllApart q c) (evict e w)
  unfolding evict
  evict-Apart e w a =
      Ensures-bind (AllApart q c) (AllApart q c) (make_room (e.depth + 2) w) _
        (make_room-Apart (e.depth + 2) w a)
        λ w₁ a₁.
          Ensures-bind (AllApart q c) (AllApart q c) (push_slot e.count w₁) _
            (push_slot-Apart e.count w₁ a₁)
            λ w₂ a₂.
              Ensures-bind (AllApart q c) (AllApart q c) (push_slot e.depth w₂) _
                (push_slot-Apart e.depth w₂ a₂) λ w₃ a₃. push_stack-Apart e.depth e.stack w₃ a₃

  evict_bucket-Apart :
      (es : Bucket) (w : World) → AllApart q c w → Ensures (AllApart q c) (evict_bucket es w)
  unfolding evict_bucket
  evict_bucket-Apart [] w a = a
  evict_bucket-Apart (e ∷ es) w a =
      Ensures-bind (AllApart q c) (AllApart q c) (if ltb 0 e.count then evict e w else ok w)
        (evict_bucket es)
        (Ensures-if (AllApart q c) (ltb 0 e.count) (evict e w) (ok w) (evict-Apart e w a) a)
        (evict_bucket-Apart es)

  pub evict_table-Apart :
      (bs : List Bucket) (w : World) → AllApart q c w → Ensures (AllApart q c) (evict_table bs w)
  unfolding evict_table
  evict_table-Apart [] w a = a
  evict_table-Apart (b ∷ bs) w a =
      Ensures-bind (AllApart q c) (AllApart q c) (evict_bucket b w) (evict_table bs)
        (evict_bucket-Apart b w a) (evict_table-Apart bs)

  pub write_trailer-Apart : (w : World) → AllApart q c w → Ensures (AllApart q c) (write_trailer w)
  unfolding write_trailer
  write_trailer-Apart w a =
      let keep = AllApart q c in
      Ensures-bind keep keep
        (if ltb buffer_length (num_evicted w + 3) then flush_evicted w else ok w) _
        (Ensures-if keep (ltb buffer_length (num_evicted w + 3)) _ _ (flush_evicted-Apart w a) a)
        λ w₁ a₁. Ensures-bind keep keep (push_slot 0 w₁) _ (push_slot-Apart 0 w₁ a₁) λ w₂ a₂.
          Ensures-bind keep keep (push_slot 1 w₂) _ (push_slot-Apart 1 w₂ a₂) λ w₃ a₃.
            Ensures-bind keep keep (push_slot 0 w₃) _ (push_slot-Apart 0 w₃ a₃)
              λ w₄ a₄. flush_evicted-Apart w₄ a₄

-- ===== src/ProfileData/Tracks/Control.antt =====
-- `ProfileData::Start` and `ProfileData::Stop`, at both ends of the invariant of an enabled collector.
use javaprofiler.Base.{
  ℕ, zero, suc, ◌+◌, ◌%◌, ◌^◌, ◌≤◌, ◌≡◌, ◌≢◌, refl, sym, ap, ◌∙◌, ℤ, pos, negsuc, List, [], ◌∷◌,
  ◌++◌, length, All, All-append, arith, some, none, true, false, list_eq, list_eq_refl,
  append_assoc, if◌then◌else◌, ltb, Bool-cases, inl, inr,
}
use mathlib.Core.Path.{ap₂}
use javaprofiler.Run.{ok, Returns}
use javaprofiler.Slot.{encode, encode-append}
use javaprofiler.Os.{
  Os, close_file, print, Message, stop_report, opened, open_answer, later_opens, open_file-none,
  open_file-some,
}
use javaprofiler.Os.FdWrite.{IsReliable}
use javaprofiler.ProfileData.{
  World, enabled, start, start_opened, started, header, flush_evicted, num_evicted, buffer_length,
}
use javaprofiler.ProfileData.Stop.{cleared, stop, write_trailer, reset, report}
use javaprofiler.ProfileData.Sample.{
  Sample, IsSample, table_samples, table_samples-IsSample, samples_slots,
}
use javaprofiler.ProfileData.Tally.{tally, occurs, tally-append}
use javaprofiler.ProfileData.Emit.{
  IsOpen, IsOpen-enabled, Emits, Emits-refl, Emits-trans, stream, stream-empty, flush_evicted-Emits,
  push_slot-Emits,
}
use javaprofiler.ProfileData.Drain.{evict_table-Emits}
use javaprofiler.ProfileData.Placed.{new_table-IsPlaced}
use javaprofiler.ProfileData.Tracks.{Tracks, written-append, new_table-IsTable, table_samples-new}

start_opened-some :
    (fd : ℕ) (path : List ℕ) (frequency : ℤ) (w : World) (os : Os)
    → frequency ≢ pos 0
    → start_opened (some fd) path frequency w os ≡ ok (true, started fd path frequency os)
unfolding start_opened
start_opened-some fd path (pos zero) w os h = absurd (h refl)
start_opened-some fd path (pos (suc n)) w os h = refl
start_opened-some fd path (negsuc n) w os h = refl

pub started-Tracks :
    (path : List ℕ) (frequency : ℤ) (fd : ℕ) (os : Os)
    → IsReliable os.writes
    → Tracks path frequency [] (started fd path frequency (opened fd path os))
unfolding stream samples_slots tally occurs
started-Tracks path frequency fd os reliable = record {
  opened = record {
    fd = fd;
    out = refl;
    target = ground arith;
    reliable = reliable;
    room = omega arith;
    sized = rw (list_eq_refl path) (omega arith);
  };
  named = refl;
  counted = refl;
  table = new_table-IsTable;
  placed = new_table-IsPlaced;
  log = [];
  logged = tt;
  written = rw (list_eq_refl path);
  conserved = λ k. rw table_samples-new refl;
}

-- Start on a disabled collector whose file opens, with a frequency that is not zero and writes that
-- do not fail, returns true and establishes the invariant with no samples.
pub start-Tracks :
    (path : List ℕ) (frequency : ℤ) (w : World) (fd : ℕ)
    → enabled w ≡ false
    → open_answer w.os.opens ≡ some fd
    → frequency ≢ pos 0
    → IsReliable w.os.writes
    → Returns (start path frequency w) λ r. (r.0 ≡ true) × Tracks path frequency [] r.1
unfolding start
start-Tracks path frequency w fd off answer nonzero reliable = (
  (true, started fd path frequency (opened fd path w.os)),
  rw (
    off,
    open_file-some path w.os fd answer,
    start_opened-some fd path frequency w (opened fd path w.os) nonzero,
  ),
  (refl, started-Tracks path frequency fd w.os reliable),
)

-- The state after a failed `open`.
abbrev pub refused : World → World
refused w = record w { os = record w.os { opens = later_opens w.os.opens } }

-- If `open` fails, `Start` returns false and the collector stays as it is.
pub start-refused :
    (path : List ℕ) (frequency : ℤ) (w : World)
    → enabled w ≡ false
    → open_answer w.os.opens ≡ none
    → start path frequency w ≡ ok (false, refused w)
unfolding start start_opened
start-refused path frequency w off answer = rw (off, open_file-none path w.os answer)

-- The end of data marker.
abbrev pub trailer : List ℕ
trailer = 0 ∷ 1 ∷ 0 ∷ []

module _ (path : List ℕ) where
  room_for_trailer-Emits :
      (w : World)
      → IsOpen path w
      → Returns
          (if ltb buffer_length (num_evicted w + 3) then flush_evicted w else ok w)
          λ w'. Emits path [] w w' × (num_evicted w' + 3 ≤ buffer_length)
  room_for_trailer-Emits w o = elim (Bool-cases (ltb buffer_length (num_evicted w + 3))) [
    | inl full ↦
        let (w', run, (e, none_left)) = flush_evicted-Emits path w o in
        (w', rw (full, run), (e, rw none_left (omega arith)))
    | inr fits ↦ (w, rw fits, (Emits-refl path w o, ground arith))
  ]

  -- Writing the trailer empties the buffer into the file.
  write_trailer-Emits :
      (w : World)
      → IsOpen path w
      → Returns (write_trailer w) λ w'. Emits path trailer w w' × (w'.profile.evict ≡ [])
  unfolding write_trailer
  write_trailer-Emits w o =
      let (w₁, run₁, (e₁, room₁)) = room_for_trailer-Emits w o in
      let (w₂, run₂, (e₂, room₂)) = push_slot-Emits path 0 w₁ e₁.opened (omega arith) in
      let (w₃, run₃, (e₃, room₃)) = push_slot-Emits path 1 w₂ e₂.opened (omega arith) in
      let (w₄, run₄, (e₄, room₄)) = push_slot-Emits path 0 w₃ e₃.opened (omega arith) in
      let (w₅, run₅, (e₅, none_left)) = flush_evicted-Emits path w₄ e₄.opened in
      (
        w₅,
        rw (run₁, run₂, run₃, run₄, run₅),
        (
          Emits-trans path [] _ e₁ (
              Emits-trans path (0 ∷ []) _ e₂
                (Emits-trans path (1 ∷ []) _ e₃ (Emits-trans path (0 ∷ []) _ e₄ e₅))),
          none_left,
        ),
      )

-- The file that a finished profile leaves: `log` between the header and the end of data marker,
-- with each stack's exact number of samples. The collector is disabled and its descriptor closed;
-- the report gives the numbers of samples and of bytes.
pub record Finished (path : List ℕ) (frequency : ℤ) (samples : List (List ℕ)) (w' : World)
    : Type 0 where
  pub log : List Sample
  pub logged : All IsSample log
  pub contents : w'.os.files path ≡ encode (header frequency ++ samples_slots log ++ trailer)
  pub exact : (k : List ℕ) → tally k log ≡ occurs k samples
  pub off : enabled w' ≡ false
  pub reliable : IsReliable w'.os.writes
  pub reported :
      (evictions : ℕ) × (earlier : List Message) × (w'.os.console
        ≡ stop_report (length samples % 2 ^ 32) evictions (length (w'.os.files path) % 2 ^ 64)
          ∷ earlier)

pub reset-open :
    (w : World) (fd : ℕ)
    → w.profile.out ≡ some fd
    → reset w ≡ record { profile = cleared w.profile; os = close_file fd w.os }
unfolding reset enabled
reset-open w fd h = rw h

module _ (path : List ℕ) (frequency : ℤ) (samples : List (List ℕ)) (w : World)
    (t : Tracks path frequency samples w) where
  -- The log, the table's samples and the trailer, as one sequence of bytes.
  finished_contents :
      (w₁ w₂ : World)
      → Emits path (samples_slots (table_samples w.profile.hash)) w w₁
      → Emits path trailer w₁ w₂
      → stream path w₂
        ≡ encode
            (header frequency ++ samples_slots (t.log ++ table_samples w.profile.hash) ++ trailer)
  finished_contents w₁ w₂ e₁ e₂ =
      let all = t.log ++ table_samples w.profile.hash in
      e₂.grown
      ∙ ap (λ s. s ++ encode trailer)
          (written-append path frequency t.log (table_samples w.profile.hash) {w = w} {w' = w₁}
            t.written e₁)
      ∙ sym (encode-append (header frequency ++ samples_slots all) trailer)
      ∙ ap encode (append_assoc (header frequency) (samples_slots all) trailer)

  finished :
      (w₁ w₂ : World)
      → Emits path (samples_slots (table_samples w.profile.hash)) w w₁
      → (e₂ : Emits path trailer w₁ w₂) → w₂.profile.evict ≡ []
      → Finished path frequency samples
          (report (record { profile = cleared w₂.profile; os = close_file e₂.opened.fd w₂.os }))
  unfolding report enabled stream close_file print
  finished w₁ w₂ e₁ e₂ empty =
      let all = table_samples w.profile.hash in
      record {
        log = t.log ++ all;
        logged =
            All-append IsSample t.log all t.logged
              (table_samples-IsSample w.profile.hash t.table.entries);
        contents = sym (stream-empty path w₂ empty) ∙ finished_contents w₁ w₂ e₁ e₂;
        exact = λ k. omega (arith, tally-append k t.log all, t.conserved k);
        off = refl;
        reliable = e₂.opened.reliable;
        reported = (
          w₂.profile.evictions,
          w₂.os.console,
          let count = e₂.count ∙ e₁.count ∙ t.counted in
              ap₂ (λ c b. stop_report c w₂.profile.evictions b ∷ w₂.os.console) count
                e₂.opened.sized,
        );
      }

  -- Stop on an enabled collector, where no write to come fails, returns and leaves the finished
  -- file of all samples since Start; no other file changes.
  pub stop-Finished : Returns (stop w) λ w'.
      Finished path frequency samples w'
      × ((q : List ℕ) → list_eq path q ≡ false → w'.os.files q ≡ w.os.files q)
  unfolding stop report close_file print
  stop-Finished =
      let (w₁, run₁, e₁) = evict_table-Emits path w.profile.hash w t.opened t.table.entries in
      let (w₂, run₂, (e₂, empty)) = write_trailer-Emits path w₁ e₁.opened in
      (
        report (record { profile = cleared w₂.profile; os = close_file e₂.opened.fd w₂.os }),
        rw (IsOpen-enabled path w t.opened, run₁, run₂, reset-open w₂ e₂.opened.fd e₂.opened.out),
        (finished w₁ w₂ e₁ e₂ empty, λ q n. e₂.others q n ∙ e₁.others q n),
      )

-- ===== src/ProfileData.antt =====
-- The class `ProfileData` of profiledata.h and profiledata.cc: its state, the eviction buffer and
-- `Start`. The other members are in the modules below it.
pub mod Stop
pub mod FlushTable
pub mod Add
pub mod Emit
pub mod Sample
pub mod Drain
pub mod Tally
pub mod Placed
pub mod Tracks
pub mod Clear
pub mod Session
pub mod State
pub mod Bag
pub mod Abstract
pub mod Isolation
use javaprofiler.Base.{
  ℕ, zero, suc, ◌+◌, ◌-◌, ◌*◌, ◌/◌, ◌%◌, ◌^◌, ◌≤◌, ◌<◌, ◌≡◌, ℤ, pos, negsuc, to_word, word_mod,
  Bool, true, false, ◌&&◌, Option, none, some, List, [], ◌∷◌, ◌++◌, length, take, replicate, set,
  ltb, leb, ◌==◌, if◌then◌else◌, arith,
}
use javaprofiler.Run.{Run, ok, fault, check_failed, assertion_failed, out_of_bounds, ◌>>=◌}
use javaprofiler.Os.{Os, Message, stop_report, open_file, close_file, fd_write, print}
use javaprofiler.Slot.{encode}

abbrev pub max_stack_depth : ℕ
max_stack_depth = 64

abbrev pub associativity : ℕ
associativity = 4

abbrev pub buckets : ℕ
buckets = 2 ^ 10

abbrev pub buffer_length : ℕ
buffer_length = 2 ^ 18

-- `struct Entry`. `depth` is at most `max_stack_depth`, so its conversions to `int` are exact.
pub record Entry : Type 0 where
  pub count : ℕ
  pub depth : ℕ
  pub stack : List ℕ

-- `struct Bucket`: an array of `associativity` entries.
abbrev pub Bucket : Type 0
Bucket = List Entry

-- The members of the class. A null `hash_` is the empty table, `out_ = -1` is `none`, and `evict`
-- is the part of the buffer below `num_evicted_`, which is all that is ever read.
pub record ProfileData : Type 0 where
  pub hash : List Bucket
  pub evict : List ℕ
  pub out : Option ℕ
  pub count : ℕ
  pub evictions : ℕ
  pub total_bytes : ℕ
  pub fname : Option (List ℕ)
  pub start_time : ℕ

-- The object and the system that it writes to.
pub record World : Type 0 where
  pub profile : ProfileData
  pub os : Os

abbrev pub num_evicted : World → ℕ
num_evicted w = length w.profile.evict

-- The constructor.
unfoldable pub new_profile : ProfileData
new_profile = record {
  hash = [];
  evict = [];
  out = none;
  count = 0;
  evictions = 0;
  total_bytes = 0;
  fname = none;
  start_time = 0;
}

abbrev pub is_open : Option ℕ → Bool
is_open none = false
is_open (some fd) = true

unfoldable pub enabled : World → Bool
enabled w = is_open w.profile.out

-- `FDWrite(out_, …)`: writing to -1 fails.
abbrev write_out : Option ℕ → List ℕ → Os → Run Os
write_out none bytes os = fault check_failed
write_out (some fd) bytes os = fd_write fd bytes os

-- The state after a flush that left the system in `os`.
abbrev pub flushed : World → Os → World
flushed w os = record {
  profile = record w.profile {
    evict = [];
    total_bytes = (w.profile.total_bytes + 8 * num_evicted w) % 2 ^ 64;
  };
  os = os;
}

unfoldable pub flush_evicted : World → Run World
flush_evicted w =
    let written =
      write_out w.profile.out (encode w.profile.evict) w.os >>= λ os. ok (flushed w os) in
    if ltb 0 (num_evicted w) then written else ok w

-- The buffer after a write of slots at `num_evicted_`.
abbrev pub with_slots : World → List ℕ → World
with_slots w xs = record w { profile = record w.profile { evict = w.profile.evict ++ xs } }

-- `evict_[num_evicted_++] = v`, within the array.
unfoldable pub push_slot : ℕ → World → Run World
push_slot v w =
    if ltb (num_evicted w) buffer_length then ok (with_slots w (v ∷ [])) else fault out_of_bounds

-- `memcpy(&evict_[num_evicted_], stack, d * sizeof(Slot)); num_evicted_ += d`, within both arrays.
unfoldable pub push_stack : ℕ → List ℕ → World → Run World
push_stack d stack w =
    if leb d (length stack) && leb (num_evicted w + d) buffer_length
    then ok (with_slots w (take d stack))
    else fault out_of_bounds

-- The guard of `Evict`, with its two assertions.
unfoldable pub make_room : ℕ → World → Run World
make_room nslots w =
    let emptied = flush_evicted w >>= λ w'.
    if num_evicted w' == 0
    then (if leb nslots buffer_length then ok w' else fault assertion_failed)
    else fault assertion_failed in
    if ltb buffer_length (num_evicted w + nslots) then emptied else ok w

unfoldable pub evict : Entry → World → Run World
evict e w = do
  w₁ ← make_room (e.depth + 2) w
  w₂ ← push_slot e.count w₁
  w₃ ← push_slot e.depth w₂
  push_stack e.depth e.stack w₃

-- `class Options` with its default constructor.
pub record Options : Type 0 where
  pub frequency : ℤ

abbrev pub default_options : Options
default_options = record { frequency = pos 1 }

abbrev pub set_frequency : ℤ → Options → Options
set_frequency frequency o = record o { frequency = frequency }

-- `memset(hash_, 0, …)`.
unfoldable pub zero_entry : Entry
zero_entry = record { count = 0; depth = 0; stack = replicate max_stack_depth 0 }

unfoldable pub new_table : List Bucket
new_table = replicate buckets (replicate associativity zero_entry)

-- `1000000 / options.frequency()`, which rounds towards zero.
unfoldable pub period : ℤ → ℤ
period (pos n) = pos (1000000 / n)
period (negsuc n) = elim (1000000 / suc n) [ zero ↦ pos 0 | suc q ↦ negsuc q ]

-- The special entries that `Start` records.
abbrev pub header : ℤ → List ℕ
header frequency = 0 ∷ 3 ∷ 0 ∷ to_word (period frequency) ∷ 0 ∷ []

-- The state after a successful `Start`, with `os` the system after the `open`.
abbrev pub started : ℕ → List ℕ → ℤ → Os → World
started fd fname frequency os = record {
  profile = record {
    hash = new_table;
    evict = header frequency;
    out = some fd;
    count = 0;
    evictions = 0;
    total_bytes = 0;
    fname = some fname;
    start_time = os.now;
  };
  os = os;
}

-- `CHECK_NE(0, options.frequency())` ends the process if the frequency is zero.
unfoldable pub start_opened : Option ℕ → List ℕ → ℤ → World → Os → Run (Bool × World)
start_opened none fname frequency w os = ok (false, record w { os = os })
start_opened (some fd) fname (pos zero) w os = fault check_failed
start_opened (some fd) fname frequency w os = ok (true, started fd fname frequency os)

unfoldable pub start : List ℕ → ℤ → World → Run (Bool × World)
unfolding start_opened
start fname frequency w =
    if enabled w
    then ok (false, w)
    else (let opened = open_file fname w.os in start_opened opened.0 fname frequency w opened.1)

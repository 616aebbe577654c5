-- ===== src/JavaProfiler/Signals.antt =====
-- `prof_handler` of java_profiler.cc: what one SIGPROF does.
use javaprofiler.Base.{
  ℕ, zero, suc, ◌+◌, ◌*◌, ◌≤◌, ◌<◌, ◌≡◌, refl, sym, ap, subst, ◌∙◌, ℤ, pos, negsuc, to_word,
  to_word-lt, List, [], ◌∷◌, ◌++◌, append-nil, append_assoc, length, length-append, length-take,
  take, take-length, All-take, All, word_mod, if◌then◌else◌, Bool-cases, inl, inr, arith,
}
use javaprofiler.Run.{ok, Returns}
use javaprofiler.Slot.{IsSlot}
use javaprofiler.Os.{Message, trace_error, attach_failed, context_null, print}
use javaprofiler.ProfileData.{max_stack_depth}
use javaprofiler.ProfileData.Emit.{stream}
use javaprofiler.ProfileData.Add.{limit_depth}
use javaprofiler.ProfileData.Tracks.{Tracks}
use javaprofiler.ProfileData.Tracks.Add.{IsCall, add-Tracks}
use javaprofiler.JavaProfiler.{
  Process, Frame, Signal, collect, record_trace, attach, prof_handler, say,
}

-- The slots of a trace: the method and the line of each frame.
unfoldable pub frame_slots : List Frame → List ℕ
frame_slots [] = []
frame_slots (f ∷ fs) = f.method_id ∷ to_word f.lineno ∷ frame_slots fs

length-frame_slots : (fs : List Frame) → length (frame_slots fs) ≡ 2 * length fs
unfolding frame_slots
length-frame_slots [] = omega arith
length-frame_slots (f ∷ fs) = omega (arith, length-frame_slots fs)

-- The frames that a trace of `kMaxStackDepth / 2` frames may have.
abbrev pub max_frames : ℕ
max_frames = 32

collect-eq :
    (n : ℕ) (storage : List Frame) (stack : List ℕ)
    → n ≤ length storage
    → length stack + 2 * n ≤ max_stack_depth
    → collect n storage stack ≡ ok (stack ++ frame_slots (take n storage))
unfolding collect take frame_slots
collect-eq zero storage stack h k = ap ok (sym (append-nil stack))
collect-eq (suc n) [] stack h k = absurd (omega arith)
collect-eq (suc n) (f ∷ storage) stack h k =
    let pair = f.method_id ∷ to_word f.lineno ∷ [] in
    ground (
      arith,
      collect-eq n storage (stack ++ pair) (omega arith) (omega (arith, length-append stack pair)),
      append_assoc stack pair (frame_slots (take n storage)),
    )

-- What `AsyncGetCallTrace` is documented to leave: an error code, or a number of frames that is at
-- most the number asked for, each with a method pointer. (That it may also be 0 is not in this predicate.)
abbrev pub IsTrace : ℤ → List Frame → Type 0
IsTrace (negsuc n) storage = Unit {0}
IsTrace (pos n) storage =
    (0 < n)
    × (n ≤ max_frames)
    × (n ≤ length storage)
    × All (λ (f : Frame). IsSlot f.method_id) storage

abbrev pub trace_stacks : ℤ → List Frame → List (List ℕ) → List (List ℕ)
trace_stacks (negsuc n) storage before = before
trace_stacks (pos n) storage before = frame_slots (take n storage) ∷ before

-- The samples after a signal: one more if there is a context and the trace has no error.
abbrev pub sampled : Signal → List (List ℕ) → List (List ℕ)
sampled sig before = if sig.context then trace_stacks sig.num_frames sig.storage before else before

frame_slots-words :
    (fs : List Frame) → All (λ (f : Frame). IsSlot f.method_id) fs → All IsSlot (frame_slots fs)
unfolding frame_slots
frame_slots-words [] h = tt
frame_slots-words (f ∷ fs) h = (h.0, (to_word-lt f.lineno, frame_slots-words fs h.1))

-- Printing touches no file.
pub say-Tracks :
    (path : List ℕ) (rate : ℤ) (stacks : List (List ℕ)) (m : Message) (p : Process)
    → Tracks path rate stacks p.world
    → Tracks path rate stacks (say m p).world
unfolding print stream
say-Tracks path rate stacks m p t = record {
  opened = record {
    fd = t.opened.fd;
    out = t.opened.out;
    target = t.opened.target;
    reliable = t.opened.reliable;
    room = t.opened.room;
    sized = t.opened.sized;
  };
  named = t.named;
  counted = t.counted;
  table = t.table;
  placed = t.placed;
  log = t.log;
  logged = t.logged;
  written = t.written;
  conserved = t.conserved;
}

-- The handler leaves the signal disposition, the timer and the globals alone.
pub record SameControl (p p' : Process) : Type 0 where
  pub sigprof : p'.sigprof ≡ p.sigprof
  pub timer : p'.timer ≡ p.timer
  pub jvm_started : p'.jvm_started ≡ p.jvm_started
  pub auto_started : p'.auto_started ≡ p.auto_started
  pub profile_path : p'.profile_path ≡ p.profile_path

same :
    (p p' : Process)
    → p'.sigprof ≡ p.sigprof
    → p'.timer ≡ p.timer
    → p'.jvm_started ≡ p.jvm_started
    → p'.auto_started ≡ p.auto_started
    → p'.profile_path ≡ p.profile_path
    → SameControl p p'
same p p' a b c d e = record {
  sigprof = a;
  timer = b;
  jvm_started = c;
  auto_started = d;
  profile_path = e;
}

module _ (path : List ℕ) (rate : ℤ) (stacks : List (List ℕ)) where
  record_trace-Tracks :
      (n : ℤ) (storage : List Frame) (p : Process)
      → Tracks path rate stacks p.world
      → IsTrace n storage
      → length stacks + 1 < word_mod
      → Returns
          (record_trace n storage p)
          λ p'. Tracks path rate (trace_stacks n storage stacks) p'.world × SameControl p p'
  unfolding record_trace
  record_trace-Tracks (negsuc n) storage p t v few = (
    say (trace_error (negsuc n)) p,
    refl,
    (say-Tracks path rate stacks (trace_error (negsuc n)) p t, same p _ refl refl refl refl refl),
  )
  record_trace-Tracks (pos n) storage p t v few =
      let fs = take n storage in
      let slots = frame_slots fs in
      let size : length slots ≡ 2 * n =
        omega (arith, length-frame_slots fs, length-take n storage, v.2) in
      let whole : limit_depth (length slots) ≡ length slots = ground (arith, size, v.1) in
      let c : IsCall (length slots) slots stacks = record {
        pos = omega (arith, size, v.0);
        long = omega (arith, whole);
        words = frame_slots-words fs (All-take _ n storage v.3);
        countable = few;
      } in
      let key : take (limit_depth (length slots)) slots ≡ slots =
        ap (λ (d : ℕ). take d slots) whole ∙ take-length slots in
      let (w, run, t') = add-Tracks path rate stacks p.world t (length slots) slots c in
      (
        record p { world = w },
        rw (collect-eq n storage [] v.2 (omega (arith, v.1)), run),
        (subst (λ k. Tracks path rate (k ∷ stacks) w) key t', same p _ refl refl refl refl refl),
      )

  attach-Tracks :
      (ret : ℤ) (p : Process)
      → Tracks path rate stacks p.world
      → Tracks path rate stacks (attach ret p).world × SameControl p (attach ret p)
  attach-Tracks (pos zero) p t = (t, same p p refl refl refl refl refl)
  attach-Tracks (pos (suc n)) p t = (
    say-Tracks path rate stacks (attach_failed (pos (suc n))) p t,
    same p _ refl refl refl refl refl,
  )
  attach-Tracks (negsuc n) p t = (
    say-Tracks path rate stacks (attach_failed (negsuc n)) p t,
    same p _ refl refl refl refl refl,
  )

  SameControl-trans : (p q r : Process) → SameControl p q → SameControl q r → SameControl p r
  SameControl-trans p q r a b =
      same p r (b.sigprof ∙ a.sigprof) (b.timer ∙ a.timer) (b.jvm_started ∙ a.jvm_started)
        (b.auto_started ∙ a.auto_started) (b.profile_path ∙ a.profile_path)

  -- The signal handler of an enabled collector with fewer than 2 ^ 64 - 1 samples, where no write
  -- to come fails, returns on an error code or 1 to 32 frames: it adds one sample of the frames'
  -- slots, or none without context or with an error code, and leaves the signal's disposition, the
  -- timer and the globals alone.
  pub prof_handler-Tracks :
      (sig : Signal) (p : Process)
      → Tracks path rate stacks p.world
      → IsTrace sig.num_frames sig.storage
      → length stacks + 1 < word_mod
      → Returns
          (prof_handler sig p)
          λ p'. Tracks path rate (sampled sig stacks) p'.world × SameControl p p'
  unfolding prof_handler
  prof_handler-Tracks sig p t v few =
      let p₁ = attach sig.attach_result p in
      let (t₁, c₁) = attach-Tracks sig.attach_result p t in
      elim (Bool-cases sig.context) [
        | inr absent ↦ (
          say context_null p₁,
          rw absent,
          (
            rw absent (say-Tracks path rate stacks context_null p₁ t₁),
            SameControl-trans p p₁ (say context_null p₁) c₁ (same p₁ _ refl refl refl refl refl),
          ),
        )
        | inl present ↦
            let (p₂, run, (t₂, c₂)) = record_trace-Tracks sig.num_frames sig.storage p₁ t₁ v few in
            (p₂, rw present run, (rw present t₂, SameControl-trans p p₁ p₂ c₁ c₂))
      ]

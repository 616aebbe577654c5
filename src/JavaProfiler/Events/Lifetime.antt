-- ===== src/JavaProfiler/Events/Lifetime.antt =====
-- The life of the process of java_profiler.cc, from the constructor of the singleton to its destructor.
use javaprofiler.Base.{
  ℕ, ◌<◌, ◌^◌, ◌≡◌, refl, ap, sym, ◌∙◌, pos, List, [], ◌∷◌, ◌++◌, false, length, All, arith, subst,
}
use javaprofiler.Run.{Run, fault, ok, ◌>>=◌, Returns}
use javaprofiler.Os.{Os}
use javaprofiler.Os.FdWrite.{IsReliable}
use javaprofiler.ProfileData.{new_profile, enabled}
use javaprofiler.ProfileData.Tracks.Control.{Finished}
use javaprofiler.Reader.RoundTrip.{ReadsBack, Finished-ReadsBack}
use javaprofiler.JavaProfiler.{Process, frequency, loaded, destroy_profiler}
use javaprofiler.JavaProfiler.Phase.{
  IsIdle, IsActive, stop_profiler-Finished, destroy_profiler-idle,
}
use javaprofiler.JavaProfiler.Events.{Event, exits, step, run}
use javaprofiler.JavaProfiler.Events.Settings.{Setting, setting_of}
use javaprofiler.JavaProfiler.Events.Phases.{Status, waiting, running, Matches, samples_of}
use javaprofiler.JavaProfiler.Events.Operations.{destroy_profiler-Matches}
use javaprofiler.JavaProfiler.Events.Safety.{IsGood, History, History-samples, run-History}

pub loaded-IsIdle : (os : Os) → IsReliable os.writes → IsIdle (loaded os)
unfolding loaded enabled new_profile
loaded-IsIdle os h = record { off = refl; timer = refl; reliable = h; path_fits = omega arith }

-- One sequence of events after another.
bind_bind :
    (m : Run Process) (f g h : Process → Run Process)
    → ((x : Process) → h x ≡ (f x >>= g))
    → (m >>= h) ≡ ((m >>= f) >>= g)
bind_bind (fault c) f g h e = refl
bind_bind (ok x) f g h e = e x

pub run-append : (es fs : List Event) (p : Process) → run (es ++ fs) p ≡ (run es p >>= run fs)
unfolding run
run-append [] fs p = refl
run-append (e ∷ es) fs p =
    bind_bind (step e p) (run es) (run fs) (run (es ++ fs)) (λ x. run-append es fs x)

-- What the end of the process leaves: an idle profiler, and the complete file of a profile that ran.
abbrev pub Ends : Status → Process → Type 0
Ends waiting p' = IsIdle p'
Ends (running path stacks) p' = IsIdle p' × ReadsBack stacks (p'.world.os.files path)

-- The destructor finishes a profile's file.
destroyed-Finished :
    (path : List ℕ) (stacks : List (List ℕ)) (p p' : Process)
    → IsActive path stacks p
    → destroy_profiler p ≡ ok p'
    → Finished path (pos frequency) stacks p'.world
destroyed-Finished path stacks p p' a run =
    let (p₁, stopped, (i, f)) = stop_profiler-Finished path stacks p a in
    let same : p₁ ≡ p' =
      let e : ok p₁ ≡ ok p' = sym (destroy_profiler-idle p p₁ stopped i) ∙ run in cc in
    subst (λ q. Finished path (pos frequency) stacks q.world) same f

exit-Ends :
    (s : Status) (p : Process)
    → Matches s p
    → samples_of s < 2 ^ 31
    → Returns (step exits p) (Ends s)
unfolding step
exit-Ends waiting p i few = destroy_profiler-Matches waiting p i
exit-Ends (running path stacks) p a few =
    let (p', run, i) = destroy_profiler-Matches (running path stacks) p a in
    (
      p',
      run,
      (
        i,
        Finished-ReadsBack path (pos frequency) stacks p'.world
            (destroyed-Finished path stacks p p' a run) few,
      ),
    )

run-exits : (p p' : Process) → step exits p ≡ ok p' → run (exits ∷ []) p ≡ ok p'
unfolding run
run-exits p p' h = rw h refl

-- The globals of the loaded library.
abbrev pub unset : Setting
unset = record { stored = []; jvm = false; auto = false }

-- What the events leave, with the samples that they gave, and the end of the process after them.
abbrev pub Lives : List Event → Os → Process → Type 0
Lives es os p =
    (s : Status) × History es unset waiting (setting_of p) s
    × Matches s p
    × Returns (run (es ++ exits ∷ []) (loaded os)) (Ends s)

-- From the loaded library, if no write fails, any sequence of fewer than 2 ^ 31 events whose path
-- strings are not null and whose traces are error codes or have 1 to 32 frames returns, in a state
-- that follows from the events one by one: a start with a path that is too long changes nothing;
-- with a path that fits it stores the path and, in a JVM that has started, where no profile runs,
-- may begin an empty one at that path; the JVM's start may begin an empty profile at the stored
-- path, where none runs, and marks the process if it does; the JVM's end ends the profile if the
-- process is marked and changes nothing if not; an expiration of the timer adds to a running
-- profile the sample, if any, that its signal gives; a flush changes nothing, and a stop ends the
-- profile; the end of the process after them returns too, the profiler is then idle, and if a
-- profile was running, the Java reader finds in its file for every stack exactly how often the
-- events sampled it.
pub run-Ends :
    (es : List Event) (os : Os)
    → IsReliable os.writes
    → All IsGood es
    → length es < 2 ^ 31
    → Returns (run es (loaded os)) (Lives es os)
unfolding loaded
run-Ends es os reliable good few =
    let (p, run₁, (s, hist, h)) =
      run-History es waiting (loaded os) (loaded-IsIdle os reliable) good (omega arith) in
    let (p', run₂, ends) =
      exit-Ends s p h (omega (arith, History-samples es unset waiting (setting_of p) s hist)) in
    let run₃ =
      run-append es (exits ∷ []) (loaded os)
      ∙ ap (λ m. m >>= run (exits ∷ [])) run₁
      ∙ run-exits p p' run₂ in
    (p, run₁, (s, hist, h, (p', run₃, ends)))

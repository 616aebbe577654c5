-- ===== src/JavaProfiler/Events/Methods.antt =====
-- A whole profile, from `start0` of java_profiler.cc to the counts of methods that JvmAgent.java shows.
use javaprofiler.Base.{ℕ, ◌+◌, ◌<◌, ◌≡◌, ◌^◌, List, [], length, some, pos, true, arith, All}
use javaprofiler.Run.{Returns}
use javaprofiler.Os.{open_answer}
use javaprofiler.JavaProfiler.{Process, Signal, frequency, path_size}
use javaprofiler.JavaProfiler.Phase.{IsIdle}
use javaprofiler.JavaProfiler.Events.{run}
use javaprofiler.JavaProfiler.Events.Profile.{
  profile, traced, IsTraced, HasLines, length-traced, traced-IsFrames, profile-Finished,
}
use javaprofiler.JavaProfileData.SourceLine.{Natives, MethodName}
use javaprofiler.JavaProfileData.ByMethod.{AreKnown}
use javaprofiler.JavaProfileData.ByMethod.Exact.{CountsMethods, Finished-CountsMethods}

-- A profile of an idle profiler in a running JVM (a path that fits, a file that opens, fewer than 2
-- ^ 25 signals that each bring an error code or 1 to 32 frames, lines that are ints, no failing
-- write, and a name for every method of the stacks) returns from every event and is idle again; the
-- Java reader then reads the file and its reduction returns, and in the cumulative profile of the
-- reduced profile every name that is not empty has exactly the number of stacks with a frame of a
-- method of that name.
pub profile-CountsMethods :
    (natives : Natives) (show : MethodName → List ℕ) (text : ℕ → List ℕ) (path : List ℕ)
    (sigs : List Signal) (p : Process) (fd : ℕ)
    → IsIdle p
    → p.jvm_started ≡ true
    → 1 + length path < path_size
    → open_answer p.world.os.opens ≡ some fd
    → All IsTraced sigs
    → length sigs < 2 ^ 25
    → All HasLines sigs
    → All (AreKnown natives show text) (traced sigs [])
    → Returns
        (run (profile path sigs) p)
        λ p'. IsIdle p' × CountsMethods natives show text (traced sigs []) (p'.world.os.files path)
profile-CountsMethods natives show text path sigs p fd i up fits opens v few lines known =
    let (p', run, (idle, f)) = profile-Finished path sigs p fd i up fits opens v (omega arith) in
    (
      p',
      run,
      (
        idle,
        Finished-CountsMethods natives show text path (pos frequency) (traced sigs []) p'.world f
            (omega (arith, length-traced sigs [])) (traced-IsFrames sigs [] lines tt) known,
      ),
    )

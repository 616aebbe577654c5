-- ===== src/Tests/Java.antt =====
-- The theorems about JavaProfileData.java and the analysis of ProfileData.java at concrete inputs.
use javaprofiler.Base.{
  ℕ, ◌%◌, ◌^◌, ◌≡◌, ◌≢◌, refl, ℤ, pos, negsuc, List, [], ◌∷◌, ◌++◌, some, true, false, Option, ap,
  All, list_eq, arith, get_elem?, take,
}
use javaprofiler.Run.{Returns}
use javaprofiler.ProfileData.Session.{session, added}
use javaprofiler.JavaProfiler.Phase.{IsIdle}
use javaprofiler.JavaProfiler.Events.{run}
use javaprofiler.JavaProfiler.Events.Profile.{profile, traced, profile-ReadsFrames}
use javaprofiler.Agent.LineTable.{Entry, pairs}
use javaprofiler.Reader.{more, Observation}
use javaprofiler.Reader.Analyze.{
  LocationInfo, analyze, find, self_total, cumulative_total, analyze-totals,
}
use javaprofiler.Reader.SelfCount.{Analyzes, session-Analyzes}
use javaprofiler.ProfilerUtils.{
  text_equals, get_flat_profile, get_cumulative_profile, total_profile,
}
use javaprofiler.ProfilerUtils.Charges.{count_of}
use javaprofiler.Reader.Reduce.{get_reduced, get_total_count}
use javaprofiler.Reader.Reduce.Paths.{is_visible}
use javaprofiler.Reader.Reduce.Profiles.{
  SameCounts, IsNamed, IsVisible, count_with, get_reduced-cumulative, total_profile-total,
}
use javaprofiler.JavaProfileData.{JavaProfileData, read_java_file}
use javaprofiler.JavaProfileData.Frames.{ReadsFrames}
use javaprofiler.JavaProfileData.Termination.{read_java_file-ends}
use javaprofiler.JavaProfiler.Signals.{frame_slots}
use javaprofiler.JavaProfiler.Events.Methods.{profile-CountsMethods}
use javaprofiler.JavaProfileData.ByMethod.{IsKnown, AreKnown}
use javaprofiler.JavaProfileData.ByMethod.Exact.{CountsMethods}
use javaprofiler.JavaProfileData.SourceLine.{
  MethodName, unknown_methodid, name_location, Natives, method_name, get_method_name, shown_source,
  IsLineOf, get_method_name-IsLineOf,
}
use javaprofiler.Tests.{path, idle_process, idle_process-IsIdle, disabled_world, disabled_world-off}
use javaprofiler.Tests.Profiler.{signals, signal-words}
use javaprofiler.Tests.Files.{cut_file, cut_file-slots}
use javaprofiler.Tests.Collector.{calls, calls-IsValid, not_zero}

profile-ReadsFrames_example :
    Returns
      (run (profile path signals) idle_process)
      λ p'. IsIdle p' × ReadsFrames (traced signals []) (p'.world.os.files path)
profile-ReadsFrames_example =
    profile-ReadsFrames path signals idle_process 5 idle_process-IsIdle refl (omega arith) refl
      (signal-words, (tt, (signal-words, (signal-words, tt)))) (omega arith)
      ((omega arith, tt), ((omega arith, tt), ((omega arith, tt), ((omega arith, tt), tt))))

session-Analyzes_example :
    Returns
      (session path (pos 50) calls disabled_world)
      λ w'. Analyzes (added calls []) (w'.os.files path)
session-Analyzes_example =
    session-Analyzes path (pos 50) calls disabled_world 5 disabled_world-off refl not_zero tt
      calls-IsValid (omega arith)

-- A function that calls itself, and one that it calls.
abbrev observed_stacks : List Observation
observed_stacks =
    record { stack = 7 ∷ 7 ∷ []; count = pos 3 } ∷ record { stack = 9 ∷ 7 ∷ []; count = pos 2 } ∷ []

analyze-totals_example :
    (ls : List LocationInfo) × (analyze observed_stacks [] ≡ some ls)
    × ((q : ℕ)
        → ((find q ls).self_count ≡ self_total q observed_stacks % 2 ^ 32)
          × ((find q ls).cumulative_count ≡ cumulative_total q observed_stacks % 2 ^ 32))
analyze-totals_example =
    analyze-totals observed_stacks ((λ e. absurd (cc)), ((λ e. absurd (cc)), tt))

-- A name for each address.
abbrev name_of : ℕ → List ℕ
name_of pc = pc ∷ []

abbrev shown_location : LocationInfo → Option (List ℕ)
shown_location l = some (name_of l.pc)

shown_location-IsNamed : (pc : ℕ) → IsNamed shown_location name_of pc
shown_location-IsNamed pc l h = ap (λ (q : ℕ). some (name_of q)) h

observed_stacks-IsNamed :
    All (λ (o : Observation). All (IsNamed shown_location name_of) o.stack) observed_stacks
observed_stacks-IsNamed = (
  (shown_location-IsNamed 7, (shown_location-IsNamed 7, tt)),
  ((shown_location-IsNamed 9, (shown_location-IsNamed 7, tt)), tt),
)

observed_stacks-IsVisible : All (IsVisible name_of) observed_stacks
unfolding is_visible list_eq
observed_stacks-IsVisible = (refl, (refl, tt))

get_reduced-cumulative_example :
    (entries : List (List (List ℕ) × ℕ)) × (ls : List LocationInfo) × (get_reduced shown_location
        observed_stacks []
      ≡ some (entries, ls))
    × SameCounts [] ls
    × ((q : List ℕ)
        → list_eq [] q ≡ false
        → count_of q (get_cumulative_profile entries)
          ≡ count_with name_of q observed_stacks % 2 ^ 64)
get_reduced-cumulative_example =
    get_reduced-cumulative shown_location name_of observed_stacks [] observed_stacks-IsNamed

total_profile-total_example :
    (entries : List (List (List ℕ) × ℕ)) × (ls : List LocationInfo) × (get_reduced shown_location
        observed_stacks []
      ≡ some (entries, ls))
    × (total_profile (get_flat_profile entries) ≡ get_total_count observed_stacks)
total_profile-total_example =
    total_profile-total shown_location name_of observed_stacks [] observed_stacks-IsNamed
      observed_stacks-IsVisible

read_java_file-ends_example : read_java_file cut_file ≢ more
read_java_file-ends_example = read_java_file-ends cut_file (omega (arith, cut_file-slots))

-- A line table whose second line begins at 8.
abbrev line_table : List Entry
line_table =
    record { start_location = pos 0; line_number = pos 40 }
    ∷ record { start_location = pos 8; line_number = pos 41 }
    ∷ []

abbrev natives : Natives
natives = record {
  method_info = λ m. some ((76 ∷ []) ∷ (102 ∷ []) ∷ (40 ∷ 41 ∷ []) ∷ [] ∷ []);
  line_number_table = λ m. some (pairs line_table);
}

abbrev one_location : JavaProfileData
one_location = record {
  observations = [];
  locations = record { methodid = 7; line = pos 12 } ∷ [];
  location_to_index = (record { methodid = 7; line = pos 12 }, 0) ∷ [];
}

found_location : get_elem? one_location.locations 0 ≡ some (record { methodid = 7; line = pos 12 })
unfolding get_elem?
found_location = refl

get_method_name-IsLineOf_example :
    (n : ℤ) × (get_method_name natives 0 true one_location
      ≡ some (
          method_name
            ((76 ∷ []) ++ ((102 ∷ []) ++ ((40 ∷ 41 ∷ []) ++ [])))
            (some (pos 12))
            (shown_source n)))
    × IsLineOf line_table (pos 12) (negsuc 0) n
get_method_name-IsLineOf_example =
    get_method_name-IsLineOf natives one_location 0 (record { methodid = 7; line = pos 12 })
      (76 ∷ []) (102 ∷ []) (40 ∷ 41 ∷ []) [] line_table (omega arith) found_location refl refl
      ((refl, tt), (tt, tt))

-- The text of every method, and how it is shown.
abbrev shown_text : MethodName → List ℕ
shown_text (method_name s line source) = s
shown_text (unknown_methodid m line) = []

abbrev text_of_method : ℕ → List ℕ
text_of_method m = (76 ∷ []) ++ ((102 ∷ []) ++ ((40 ∷ 41 ∷ []) ++ []))

every-IsKnown : (m : ℕ) → IsKnown natives shown_text text_of_method m
unfolding name_location
every-IsKnown m line = (_, refl, refl)

traced-AreKnown : All (AreKnown natives shown_text text_of_method) (traced signals [])
unfolding traced frame_slots take
traced-AreKnown = ((every-IsKnown 7, tt), ((every-IsKnown 7, tt), tt))

profile-CountsMethods_example : Returns (run (profile path signals) idle_process) λ p'.
    IsIdle p'
    × CountsMethods natives shown_text text_of_method (traced signals []) (p'.world.os.files path)
profile-CountsMethods_example =
    profile-CountsMethods natives shown_text text_of_method path signals idle_process 5
      idle_process-IsIdle refl (omega arith) refl
      (signal-words, (tt, (signal-words, (signal-words, tt)))) (omega arith)
      ((omega arith, tt), ((omega arith, tt), ((omega arith, tt), ((omega arith, tt), tt))))
      traced-AreKnown

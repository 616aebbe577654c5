-- ===== src/JavaProfileData/ByMethod/Exact.antt =====
-- From a finished profile to the counts of methods that the Java side shows of it.
use javaprofiler.Base.{
  ℕ, ◌^◌, ◌≤◌, ◌<◌, ◌≡◌, refl, sym, ◌∙◌, ℤ, true, false, some, List, [], ◌∷◌, length, All, arith,
  list_eq,
}
use javaprofiler.ProfileData.{World}
use javaprofiler.ProfileData.Sample.{Sample, IsSample}
use javaprofiler.ProfileData.Tally.{tally, occurs-le-length}
use javaprofiler.ProfileData.Tracks.Control.{Finished}
use javaprofiler.ProfilerUtils.{text_equals, get_cumulative_profile}
use javaprofiler.ProfilerUtils.Charges.{count_of}
use javaprofiler.Reader.{done}
use javaprofiler.Reader.Analyze.{LocationInfo}
use javaprofiler.Reader.SelfCount.{singles, tally-singles}
use javaprofiler.Reader.Totals.{matching, matching-tally}
use javaprofiler.Reader.Reduce.{get_reduced}
use javaprofiler.Reader.Reduce.Profiles.{get_reduced-cumulative}
use javaprofiler.JavaProfileData.{JavaProfileData, read_java_file}
use javaprofiler.JavaProfileData.Resolve.{IsFrames}
use javaprofiler.JavaProfileData.Frames.{Finished-ReadsLog, Finished-IsFrames}
use javaprofiler.JavaProfileData.SourceLine.{Natives, MethodName}
use javaprofiler.JavaProfileData.ByMethod.{
  java_name, AreKnown, text_at, has_method, with_method, observations-IsNamed, count_with-matching,
}

matching-length : (log : List Sample) → All IsSample log → length log ≤ matching (λ k. true) log
unfolding matching
matching-length [] v = omega arith
matching-length (s ∷ log) v = omega (arith, v.0.counted, matching-length log v.1)

matching-singles_all :
    (stacks : List (List ℕ)) → matching (λ k. true) (singles stacks) ≡ length stacks
unfolding matching singles
matching-singles_all [] = refl
matching-singles_all (s ∷ stacks) = omega (arith, matching-singles_all stacks)

module _ (text : ℕ → List ℕ) where
  with_method-matching :
      (q : List ℕ) (stacks : List (List ℕ))
      → matching (has_method text q) (singles stacks) ≡ with_method text q stacks
  unfolding matching singles with_method
  with_method-matching q [] = refl
  with_method-matching q (s ∷ stacks) = omega (arith, with_method-matching q stacks)

  with_method-le-length :
      (q : List ℕ) (stacks : List (List ℕ)) → with_method text q stacks ≤ length stacks
  unfolding with_method
  with_method-le-length q [] = omega arith
  with_method-le-length q (s ∷ stacks) = ground (arith, with_method-le-length q stacks)

module _ (natives : Natives) (show : MethodName → List ℕ) (text : ℕ → List ℕ) where
  -- What the Java side finds in a file: the profile by methods, exact for every text.
  abbrev pub CountsMethods : List (List ℕ) → List ℕ → Type 0
  CountsMethods stacks bytes =
      (d : JavaProfileData) × (entries : List (List (List ℕ) × ℕ)) × (ls : List LocationInfo)
      × (read_java_file bytes ≡ done d)
      × (get_reduced (java_name natives show d) d.observations [] ≡ some (entries, ls))
      × ((q : List ℕ)
          → list_eq [] q ≡ false
          → count_of q (get_cumulative_profile entries) ≡ with_method text q stacks)

  pub Finished-CountsMethods :
      (path : List ℕ) (frequency : ℤ) (stacks : List (List ℕ)) (w : World)
      → Finished path frequency stacks w
      → length stacks < 2 ^ 25
      → All IsFrames stacks
      → All (AreKnown natives show text) stacks
      → CountsMethods stacks (w.os.files path)
  Finished-CountsMethods path frequency stacks w f few v known =
      let (d, run, _, resolved, size) = Finished-ReadsLog path frequency stacks w f v in
      let known_log =
        Finished-IsFrames path frequency stacks w f (AreKnown natives show text) known in
      let same : (k : List ℕ) → tally k f.log ≡ tally k (singles stacks) =
        λ k. f.exact k ∙ sym (tally-singles k stacks) in
      let small : (k : List ℕ) → tally k f.log < 2 ^ 31 =
        λ k. omega (arith, f.exact k, occurs-le-length k stacks) in
      let short : length f.log ≤ length stacks = omega (
        arith,
        matching-length f.log f.logged,
        matching-tally (λ k. true) f.log (singles stacks) same,
        matching-singles_all stacks,
      ) in
      let bounded : length d.locations < 2 ^ 31 = omega (arith, size, short) in
      let named =
        observations-IsNamed natives show text d bounded d.observations f.log resolved known_log in
      let (entries, ls, reduced, _, counts) =
        get_reduced-cumulative (java_name natives show d) (text_at text d.locations) d.observations
          [] named in
      (
        d,
        entries,
        ls,
        run,
        reduced,
        λ q h.
            counts q h
            ∙ omega (
              arith,
              count_with-matching text d.locations q d.observations f.log resolved small,
              matching-tally (has_method text q) f.log (singles stacks) same,
              with_method-matching text q stacks,
              with_method-le-length text q stacks,
            ),
      )

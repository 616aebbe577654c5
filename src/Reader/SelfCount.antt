-- ===== src/Reader/SelfCount.antt =====
-- From the calls of `Add` in profiledata.cc to the self counts that `analyze` of ProfileData.java gives.
use javaprofiler.Base.{
  ℕ, ◌+◌, ◌^◌, ◌≤◌, ◌<◌, ◌≡◌, ◌≢◌, refl, ap, sym, ◌∙◌, ℤ, pos, to_int, to_word, Bool, false, some,
  List, [], ◌∷◌, length, All, arith, ◌==◌, if◌then◌else◌, list_eq_refl,
}
use javaprofiler.Run.{Returns}
use javaprofiler.Os.{open_answer}
use javaprofiler.Os.FdWrite.{IsReliable}
use javaprofiler.ProfileData.{World, enabled}
use javaprofiler.ProfileData.Sample.{Sample, IsSample}
use javaprofiler.ProfileData.Tally.{tally, occurs, occurs-le-length}
use javaprofiler.ProfileData.Tracks.Control.{Finished}
use javaprofiler.ProfileData.Session.{Call, session, added}
use javaprofiler.ProfileData.Session.Exact.{IsValid, session-Finished}
use javaprofiler.Reader.{Observation, done, read_file}
use javaprofiler.Reader.Samples.{observations, to_int-small}
use javaprofiler.Reader.RoundTrip.{read_file-encode, length-added}
use javaprofiler.Reader.Analyze.{
  LocationInfo, analyze, find, top_weight, self_total, analyze-totals,
}
use javaprofiler.Reader.Totals.{matching, matching-tally}

abbrev pub is_top : ℕ → List ℕ → Bool
is_top q [] = false
is_top q (pc ∷ pcs) = pc == q

-- How many of the stacks have `q` at the top.
unfoldable pub tops : ℕ → List (List ℕ) → ℕ
tops q [] = 0
tops q (s ∷ ss) = top_weight q s 1 + tops q ss

-- The stacks as samples of one each.
unfoldable pub singles : List (List ℕ) → List Sample
singles [] = []
singles (s ∷ ss) = record { stack = s; count = 1 } ∷ singles ss

pub tally-singles : (k : List ℕ) (ss : List (List ℕ)) → tally k (singles ss) ≡ occurs k ss
unfolding tally occurs singles
tally-singles k [] = refl
tally-singles k (s ∷ ss) = omega (arith, tally-singles k ss)

top_weight-is_top : (q : ℕ) (s : List ℕ) (n : ℕ) → top_weight q s n ≡ (if is_top q s then n else 0)
top_weight-is_top q [] n = refl
top_weight-is_top q (pc ∷ pcs) n = refl

tops-matching : (q : ℕ) (ss : List (List ℕ)) → matching (is_top q) (singles ss) ≡ tops q ss
unfolding matching tops singles
tops-matching q [] = refl
tops-matching q (s ∷ ss) = omega (arith, tops-matching q ss, top_weight-is_top q s 1)

pub small_word : (n : ℕ) → n < 2 ^ 31 → to_word (to_int n) ≡ n
unfolding to_word
small_word n h = rw (to_int-small n h) (omega arith)

-- Counts below 2 ^ 31 survive the narrowing to `int`.
self_total-observations :
    (q : ℕ) (log : List Sample)
    → ((k : List ℕ) → tally k log < 2 ^ 31)
    → self_total q (observations log) ≡ matching (is_top q) log
unfolding self_total observations matching tally
self_total-observations q [] h = refl
self_total-observations q (s ∷ log) h =
    let small : s.count < 2 ^ 31 = ground (arith, h s.stack, list_eq_refl s.stack) in
    let ih = self_total-observations q log (λ k. omega (arith, h k)) in
    rw (small_word s.count small) (omega (arith, ih, top_weight-is_top q s.stack s.count))

tops-le-length : (q : ℕ) (ss : List (List ℕ)) → tops q ss ≤ length ss
unfolding tops
tops-le-length q [] = omega arith
tops-le-length q ([] ∷ ss) = omega (arith, tops-le-length q ss)
tops-le-length q ((pc ∷ pcs) ∷ ss) = ground (arith, tops-le-length q ss)

logged-tops :
    (log : List Sample)
    → All IsSample log
    → All (λ (o : Observation). o.stack ≢ []) (observations log)
unfolding observations
logged-tops [] v = tt
logged-tops (s ∷ log) v = (λ e. omega (arith, ap length e, v.0.deep), logged-tops log v.1)

-- What `analyze` finds in a file: for every `pc` how many stacks have it at the top.
abbrev pub Analyzes : List (List ℕ) → List ℕ → Type 0
Analyzes stacks bytes =
    (obs : List Observation) × (ls : List LocationInfo) × (read_file bytes ≡ done obs)
    × (analyze obs [] ≡ some ls)
    × ((q : ℕ) → (find q ls).self_count ≡ tops q stacks)

pub Finished-Analyzes :
    (path : List ℕ) (frequency : ℤ) (stacks : List (List ℕ)) (w : World)
    → Finished path frequency stacks w
    → length stacks < 2 ^ 31
    → Analyzes stacks (w.os.files path)
Finished-Analyzes path frequency stacks w f few =
    let obs = observations f.log in
    let (ls, run, totals) = analyze-totals obs (logged-tops f.log f.logged) in
    let small : (k : List ℕ) → tally k f.log < 2 ^ 31 =
      λ k. omega (arith, f.exact k, occurs-le-length k stacks) in
    let sum : (q : ℕ) → self_total q obs ≡ tops q stacks = λ q.
      self_total-observations q f.log small
      ∙ matching-tally (is_top q) f.log (singles stacks)
          (λ k. f.exact k ∙ sym (tally-singles k stacks))
      ∙ tops-matching q stacks in
    (
      obs,
      ls,
      rw f.contents (read_file-encode frequency f.log f.logged),
      run,
      λ q. omega (arith, (totals q).0, sum q, tops-le-length q stacks),
    )

-- After a session of Start on a disabled collector with a frequency that is not zero, fewer than 2
-- ^ 31 calls of Add and FlushTable in any order, and Stop, whose file opens, whose writes do not
-- fail and whose calls of Add have a positive depth and an array of 64-bit slots that reaches as
-- far, the reader reads the file, its analysis returns, and the self count of every address is the
-- number of stacks added with that address at the top.
pub session-Analyzes :
    (path : List ℕ) (frequency : ℤ) (calls : List Call) (w : World) (fd : ℕ)
    → enabled w ≡ false
    → open_answer w.os.opens ≡ some fd
    → frequency ≢ pos 0
    → IsReliable w.os.writes
    → All IsValid calls
    → length calls < 2 ^ 31
    → Returns (session path frequency calls w) λ w'. Analyzes (added calls []) (w'.os.files path)
session-Analyzes path frequency calls w fd off answer nonzero reliable valid few =
    let (w', run, f) =
      session-Finished path frequency calls w fd off answer nonzero reliable valid (omega arith) in
    (
      w',
      run,
      Finished-Analyzes path frequency (added calls []) w' f (omega (arith, length-added calls [])),
    )

-- ===== src/Agent/LineTable.antt =====
-- `Profiler.getLineNumberTable0` of agent.cpp.
use javaprofiler.Base.{
  ℕ, suc, ◌+◌, ◌*◌, ◌≡◌, ◌≢◌, refl, ap, ℤ, pos, Bool, true, false, Option, none, some, List, [],
  ◌∷◌, ◌++◌, length, length-append, set, replicate, length-replicate, leb, ◌==◌, if◌then◌else◌,
  arith, append_assoc,
}
use javaprofiler.Run.{Run, ok, fault, out_of_bounds, ◌>>=◌, Returns}
use javaprofiler.Agent.Memory.{count, jvmti_deallocate-count}
use javaprofiler.Agent.{Agent, jvmti_deallocate}

-- `jvmtiLineNumberEntry`
pub record Entry : Type 0 where
  pub start_location : ℤ
  pub line_number : ℤ

-- The JVM's answers: the error of `GetLineNumberTable`, the table and its address, whether
-- `NewLongArray` has memory, and the error of `Deallocate`.
pub record Answers : Type 0 where
  pub err : ℕ
  pub table_ptr : ℕ
  pub table : List Entry
  pub array_made : Bool
  pub free_err : ℕ

-- `SetLongArrayRegion(ret, start, 2, buf)` within the array.
unfoldable pub set_region : List ℤ → ℕ → ℤ → ℤ → Run (List ℤ)
set_region array start x y =
    if leb (start + 2) (length array)
    then ok (set (set array start x) (start + 1) y)
    else fault out_of_bounds

-- The loop over the entries; `i` is the index of the first entry of the list.
unfoldable pub fill : List Entry → ℕ → List ℤ → Run (List ℤ)
unfolding set_region
fill [] i array = ok array
fill (e ∷ es) i array = set_region array (i * 2) e.start_location e.line_number >>= fill es (i + 1)

-- The state once `GetLineNumberTable` has allocated its table.
abbrev pub with_table : Answers → Agent → Agent
with_table t a = record a { live = t.table_ptr ∷ a.live }

-- A null array is `none`. Without memory for the array the function returns at once.
unfoldable pub get_line_number_table0 : Answers → Agent → Run (Option (List ℤ) × Agent)
unfolding fill
get_line_number_table0 t a =
    let filled = fill t.table 0 (replicate (length t.table * 2) (pos 0)) >>= λ array.
    jvmti_deallocate t.table_ptr t.free_err (with_table t a) >>= λ a'. ok (some array, a') in
    let made = if t.array_made then filled else ok (none, with_table t a) in
    if t.err == 0 then made else ok (none, a)

-- The array that Java expects: the entries' pairs in order.
unfoldable pub pairs : List Entry → List ℤ
pairs [] = []
pairs (e ∷ es) = e.start_location ∷ e.line_number ∷ pairs es

set_pair :
    (xs ys : List ℤ) (a b x y : ℤ)
    → set (set (xs ++ a ∷ b ∷ ys) (length xs) x) (suc (length xs)) y ≡ xs ++ x ∷ y ∷ ys
unfolding set
set_pair [] ys a b x y = refl
set_pair (z ∷ xs) ys a b x y = ap (◌∷◌ z) (set_pair xs ys a b x y)

-- One store, at the end of what is filled.
set_region-next :
    (filled ys : List ℤ) (a b x y : ℤ) (start : ℕ)
    → length filled ≡ start
    → set_region (filled ++ a ∷ b ∷ ys) start x y ≡ ok (filled ++ x ∷ y ∷ ys)
unfolding set_region
set_region-next filled ys a b x y start h =
    let fits : leb (start + 2) (length (filled ++ a ∷ b ∷ ys)) ≡ true =
      ground (arith, length-append filled (a ∷ b ∷ ys)) in
    let next : start + 1 ≡ suc start = omega arith in
    rw (fits, next, ← h) (ap ok (set_pair filled ys a b x y))

fill-pairs :
    (es : List Entry) (i : ℕ) (filled blank : List ℤ)
    → length filled ≡ i * 2
    → length blank ≡ length es * 2
    → fill es i (filled ++ blank) ≡ ok (filled ++ pairs es)
unfolding fill pairs
fill-pairs [] i filled [] h k = refl
fill-pairs [] i filled (a ∷ ys) h k = absurd (omega arith)
fill-pairs (e ∷ es) i filled [] h k = absurd (omega arith)
fill-pairs (e ∷ es) i filled (a ∷ []) h k = absurd (omega arith)
fill-pairs (e ∷ es) i filled (a ∷ b ∷ ys) h k =
    let pair = e.start_location ∷ e.line_number ∷ [] in
    let ih : fill es (i + 1) ((filled ++ pair) ++ ys) ≡ ok ((filled ++ pair) ++ pairs es) =
      fill-pairs es (i + 1) (filled ++ pair) ys (omega (arith, length-append filled pair))
        (omega arith) in
    rw (
      set_region-next filled ys a b e.start_location e.line_number (i * 2) h,
      ← append_assoc filled pair ys,
      ih,
      append_assoc filled pair (pairs es),
    )

-- When the JVM gives a line table at an address that is not null and there is memory for the array,
-- Java gets the pairs of its entries in order, each store within the array, and every block is live
-- as often as before.
pub get_line_number_table0-pairs :
    (t : Answers) (a : Agent)
    → t.err ≡ 0
    → t.array_made ≡ true
    → t.table_ptr ≢ 0
    → Returns
        (get_line_number_table0 t a)
        λ r. (r.0 ≡ some (pairs t.table)) × ((q : ℕ) → count q r.1.live ≡ count q a.live)
unfolding get_line_number_table0 count
get_line_number_table0-pairs t a found made nonnull =
    let blank = replicate (length t.table * 2) (pos 0) in
    let filled =
      fill-pairs t.table 0 [] blank (omega arith) (length-replicate (length t.table * 2) (pos 0)) in
    let (a', run, gone) =
      jvmti_deallocate-count t.table_ptr t.free_err (with_table t a) nonnull (ground arith) in
    ((some (pairs t.table), a'), rw (found, made, filled, run), (refl, λ q. omega (arith, gone q)))

-- If the JVM reports an error, Java gets no array and nothing is allocated or freed.
pub get_line_number_table0-error :
    (t : Answers) (a : Agent) → t.err ≢ 0 → get_line_number_table0 t a ≡ ok (none, a)
unfolding get_line_number_table0
get_line_number_table0-error t a h = ground arith

-- When the JVM gives a line table but there is no memory for the array, the function returns no
-- array and the table's block stays live.
pub get_line_number_table0-leaks :
    (t : Answers) (a : Agent)
    → t.err ≡ 0
    → t.array_made ≡ false
    → Returns (get_line_number_table0 t a) λ r. (r.0 ≡ none) × (r.1.live ≡ t.table_ptr ∷ a.live)
unfolding get_line_number_table0
get_line_number_table0-leaks t a found unmade = ((none, with_table t a), ground arith, (refl, refl))

-- ===== src/Agent/Memory.antt =====
-- The blocks that JVMTI hands out to agent.cpp, and `jvmti_deallocate`.
use javaprofiler.Base.{
  ℕ, ◌+◌, ◌<◌, ◌≡◌, ◌≢◌, false, Bool-cases, some, List, [], ◌∷◌, ◌==◌, if◌then◌else◌, arith, inl,
  inr,
}
use javaprofiler.Run.{Returns}
use javaprofiler.Agent.{Agent, deallocate_error, log_line, release, deallocate, jvmti_deallocate}

-- How often an address is in a list of blocks.
unfoldable pub count : ℕ → List ℕ → ℕ
count q [] = 0
count q (p ∷ ps) = (if p == q then 1 else 0) + count q ps

-- A block that is live can be freed, and one occurrence of it goes.
pub release-count :
    (p : ℕ) (live : List ℕ)
    → 0 < count p live
    → (rest : List ℕ) × (release p live ≡ some rest)
      × ((q : ℕ) → count q rest + (if p == q then 1 else 0) ≡ count q live)
unfolding release count
release-count p [] h = absurd (omega arith)
release-count p (b ∷ bs) h = elim (Bool-cases (b == p)) [
  | inl here ↦ (bs, rw here, λ q. ground arith)
  | inr other ↦
      let (rest, run, gone) = release-count p bs (ground arith) in
      (b ∷ rest, rw (other, run), λ q. ground (arith, gone q))
]

-- Freeing a live block succeeds, and leaves everything but that block and the printed lines.
pub jvmti_deallocate-count :
    (p err : ℕ) (a : Agent)
    → p ≢ 0
    → 0 < count p a.live
    → Returns
        (jvmti_deallocate p err a)
        λ a'. (q : ℕ) → count q a'.live + (if p == q then 1 else 0) ≡ count q a.live
unfolding jvmti_deallocate deallocate
jvmti_deallocate-count p err a nonnull h =
    let (rest, run, gone) = release-count p a.live h in
    let a' = record a { live = rest } in
    let not_null : (p == 0) ≡ false = ground arith in
    (
      if err == 0 then a' else log_line (deallocate_error err) a',
      rw (not_null, run, deallocate),
      λ q. ground (arith, gone q),
    )

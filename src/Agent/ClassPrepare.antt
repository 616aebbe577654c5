-- ===== src/Agent/ClassPrepare.antt =====
-- `OnClassPrepare` of agent.cpp: the block of method identifiers that it asks for.
use javaprofiler.Base.{
  ℕ, suc, ◌≡◌, refl, Bool-cases, inl, inr, true, false, none, some, List, [], ◌∷◌, ◌==◌, arith,
}
use javaprofiler.Run.{ok, fault, out_of_bounds}
use javaprofiler.Agent.{Agent, release, deallocate, on_class_prepare_callback}
use javaprofiler.Agent.Memory.{count}

release-none : (p : ℕ) (live : List ℕ) → count p live ≡ 0 → release p live ≡ none
unfolding release count
release-none p [] h = refl
release-none p (b ∷ bs) h = elim (Bool-cases (b == p)) [
  | inl here ↦ absurd (ground arith)
  | inr other ↦ rw (other, release-none p bs (ground arith))
]

release-first : (p : ℕ) (live : List ℕ) → release p (p ∷ live) ≡ some live
unfolding release
release-first p live = let same : (p == p) ≡ true = ground arith in rw same

-- Where the variable's value is not the address of a live block before the call, the callback
-- leaves nothing behind if GetClassMethods succeeds, and has undefined behaviour if it fails, since
-- it frees the uninitialised variable.
pub on_class_prepare-outcome :
    (err methods : ℕ) (a : Agent)
    → count methods a.live ≡ 0
    → (on_class_prepare_callback 0 methods a ≡ ok a)
      × (on_class_prepare_callback (suc err) methods a ≡ fault out_of_bounds)
unfolding on_class_prepare_callback deallocate
on_class_prepare-outcome err methods a dead = (
  rw (release-first methods a.live, deallocate),
  let nonzero : (suc err == 0) ≡ false = ground arith in
      rw (nonzero, release-none methods a.live dead, deallocate),
)

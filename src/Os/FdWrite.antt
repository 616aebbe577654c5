-- ===== src/Os/FdWrite.antt =====
-- FDWrite of profiledata.cc: partial and interrupted writes.
use javaprofiler.Base.{
  ℕ, ◌≡◌, refl, false, ◌⊎◌, inl, inr, sym, ap, ◌∙◌, some, List, [], ◌∷◌, ◌++◌, take, drop,
  take-append-drop, list_eq, list_eq_refl, append-nil, append_assoc,
}
use javaprofiler.Run.{fault, check_failed, Returns}
use javaprofiler.Os.{
  WriteResult, interrupted, failed, wrote, Os, fd_write_loop, fd_write, update_file,
}

-- No coming `write` fails with an error other than `EINTR`.
abbrev pub IsReliable : List WriteResult → Type 0
IsReliable [] = Unit {0}
IsReliable (interrupted ∷ script) = IsReliable script
IsReliable (failed ∷ script) = ⊥
IsReliable (wrote n ∷ script) = IsReliable script

fd_write_loop-all :
    (script : List WriteResult) (sent buf : List ℕ)
    → IsReliable script
    → Returns (fd_write_loop script sent buf) λ r. (r.0 ≡ sent ++ buf) × IsReliable r.1
unfolding fd_write_loop
fd_write_loop-all [] sent [] h = ((sent, []), refl, (sym (append-nil sent), h))
fd_write_loop-all (interrupted ∷ s) sent [] h = ((sent, _), refl, (sym (append-nil sent), h))
fd_write_loop-all (failed ∷ s) sent [] h = absurd h
fd_write_loop-all (wrote n ∷ s) sent [] h = ((sent, _), refl, (sym (append-nil sent), h))
fd_write_loop-all [] sent (b ∷ buf) h = ((_, []), refl, (refl, h))
fd_write_loop-all (interrupted ∷ s) sent (b ∷ buf) h = fd_write_loop-all s sent (b ∷ buf) h
fd_write_loop-all (failed ∷ s) sent (b ∷ buf) h = absurd h
fd_write_loop-all (wrote n ∷ s) sent (b ∷ buf) h =
    let (r, run, (e, g)) = fd_write_loop-all s (sent ++ take n (b ∷ buf)) (drop n (b ∷ buf)) h in
    (
      r,
      run,
      (
        e
            ∙ append_assoc sent (take n (b ∷ buf)) (drop n (b ∷ buf))
            ∙ ap (◌++◌ sent) (take-append-drop n (b ∷ buf)),
        g,
      ),
    )

-- `os'` is `os` after `buf` was appended to the file at `path` by calls of `write`.
pub record Appended (path buf : List ℕ) (os os' : Os) : Type 0 where
  pub all : os'.files path ≡ os.files path ++ buf
  pub others : (q : List ℕ) → list_eq path q ≡ false → os'.files q ≡ os.files q
  pub fds : os'.fds ≡ os.fds
  pub opens : os'.opens ≡ os.opens
  pub now : os'.now ≡ os.now
  pub console : os'.console ≡ os.console
  pub reliable : IsReliable os'.writes

-- However the kernel splits or interrupts the writes, if none fails then FDWrite on an open
-- descriptor returns and has appended exactly the buffer to the descriptor's file; the other files,
-- the descriptors and the console stay.
pub fd_write-Appended :
    (fd : ℕ) (buf path : List ℕ) (os : Os)
    → os.fds fd ≡ some path
    → IsReliable os.writes
    → Returns (fd_write fd buf os) (Appended path buf os)
unfolding fd_write
fd_write-Appended fd [] path os e h = (
  os,
  refl,
  record {
    all = sym (append-nil (os.files path));
    others = λ q _. refl;
    fds = refl;
    opens = refl;
    now = refl;
    console = refl;
    reliable = h;
  },
)
fd_write-Appended fd (b ∷ buf) path os e h =
    let (r, run, (all, g)) = fd_write_loop-all os.writes (os.files path) (b ∷ buf) h in
    (
      record os { files = update_file os.files path r.0; writes = r.1 },
      rw (e, fd_write, run),
      record {
        all = rw (list_eq_refl path) all;
        others = λ q n. rw n;
        fds = refl;
        opens = refl;
        now = refl;
        console = refl;
        reliable = g;
      },
    )

fd_write_loop-cases :
    (script : List WriteResult) (sent buf : List ℕ)
    → Returns (fd_write_loop script sent buf) (λ r. r.0 ≡ sent ++ buf)
      ⊎ (fd_write_loop script sent buf ≡ fault check_failed)
unfolding fd_write_loop
fd_write_loop-cases [] sent [] = inl ((sent, []), refl, sym (append-nil sent))
fd_write_loop-cases (r ∷ s) sent [] = inl ((sent, r ∷ s), refl, sym (append-nil sent))
fd_write_loop-cases [] sent (b ∷ buf) = inl ((sent ++ (b ∷ buf), []), refl, refl)
fd_write_loop-cases (interrupted ∷ s) sent (b ∷ buf) = fd_write_loop-cases s sent (b ∷ buf)
fd_write_loop-cases (failed ∷ s) sent (b ∷ buf) = inr refl
fd_write_loop-cases (wrote n ∷ s) sent (b ∷ buf) =
    elim (fd_write_loop-cases s (sent ++ take n (b ∷ buf)) (drop n (b ∷ buf))) [
      | inr stopped ↦ inr stopped
      | inl (r, run, e) ↦ inl (
        r,
        run,
        e
            ∙ append_assoc sent (take n (b ∷ buf)) (drop n (b ∷ buf))
            ∙ ap (◌++◌ sent) (take-append-drop n (b ∷ buf)),
      )
    ]

-- Whatever write answers, FDWrite on an open descriptor either appends the whole buffer to its file
-- or ends the process by its check.
pub fd_write-all_or_abort :
    (fd : ℕ) (buf path : List ℕ) (os : Os)
    → os.fds fd ≡ some path
    → Returns (fd_write fd buf os) (λ os'. os'.files path ≡ os.files path ++ buf)
      ⊎ (fd_write fd buf os ≡ fault check_failed)
unfolding fd_write
fd_write-all_or_abort fd [] path os e = inl (os, refl, sym (append-nil (os.files path)))
fd_write-all_or_abort fd (b ∷ buf) path os e =
    elim (fd_write_loop-cases os.writes (os.files path) (b ∷ buf)) [
      | inr stopped ↦ inr (rw (e, fd_write, stopped))
      | inl (r, run, all) ↦ inl (
        record os { files = update_file os.files path r.0; writes = r.1 },
        rw (e, fd_write, run),
        rw (list_eq_refl path) all,
      )
    ]

-- ===== src/Os.antt =====
-- The system calls that profiledata.cc makes, and its `FDWrite`. The kernel's answers to the
-- coming calls of `open` and `write` are scripts in the state.
pub mod FdWrite
use javaprofiler.Base.{
  ℕ, ℤ, ◌≡◌, Bool, true, false, Option, none, some, List, [], ◌∷◌, ◌++◌, take, drop, list_eq, ◌==◌,
  if◌then◌else◌, arith,
}
use javaprofiler.Run.{Run, ok, fault, check_failed, ◌>>=◌}

-- What one `write` of a non-empty buffer returns: -1 with `EINTR`, -1 with another error, or the
-- number of bytes that the kernel took, which is at most the number offered.
pub data WriteResult : Type 0 where
  interrupted : WriteResult
  failed : WriteResult
  wrote : ℕ → WriteResult

-- What the program prints, with the values that it formats.
pub data Message : Type 0 where
  stop_report : ℕ → ℕ → ℕ → Message
  not_enabled : Message
  attach_failed : ℤ → Message
  context_null : Message
  trace_error : ℤ → Message
  start_failed : Message
  sending_to : List ℕ → Message
  path_too_long : Message

-- A path is its characters. `files` holds the contents of the regular files, `fds` the file that
-- each open descriptor refers to, `console` what was printed, latest first. When a script has run out, `open` fails and `write` takes all.
pub record Os : Type 0 where
  pub files : List ℕ → List ℕ
  pub fds : ℕ → Option (List ℕ)
  pub opens : List (Option ℕ)
  pub writes : List WriteResult
  pub now : ℕ
  pub console : List Message

abbrev pub update_file : (List ℕ → List ℕ) → List ℕ → List ℕ → List ℕ → List ℕ
update_file files path contents q = if list_eq path q then contents else files q

abbrev pub update_fd : (ℕ → Option (List ℕ)) → ℕ → Option (List ℕ) → ℕ → Option (List ℕ)
update_fd fds fd target q = if fd == q then target else fds q

abbrev pub open_answer : List (Option ℕ) → Option ℕ
open_answer [] = none
open_answer (answer ∷ rest) = answer

abbrev pub later_opens : List (Option ℕ) → List (Option ℕ)
later_opens [] = []
later_opens (answer ∷ rest) = rest

-- The system after `open` returned a descriptor.
abbrev pub opened : ℕ → List ℕ → Os → Os
opened fd fname os = record os {
  opens = later_opens os.opens;
  files = update_file os.files fname [];
  fds = update_fd os.fds fd (some fname);
}

-- open(fname, O_CREAT | O_WRONLY | O_TRUNC, 0666); `none` is a negative result.
unfoldable pub open_file : List ℕ → Os → Option ℕ × Os
open_file fname os = elim (open_answer os.opens) [
  | none ↦ (none, record os { opens = later_opens os.opens })
  | some fd ↦ (some fd, opened fd fname os)
]

unfoldable pub close_file : ℕ → Os → Os
close_file fd os = record os { fds = update_fd os.fds fd none }

-- The loop of `FDWrite` with its `NO_INTR`: what the file holds so far, and the bytes `buf` that
-- are left. A negative result other than `EINTR` fails the RAW_CHECK.
unfoldable pub fd_write_loop : List WriteResult → List ℕ → List ℕ → Run (List ℕ × List WriteResult)
fd_write_loop script sent [] = ok (sent, script)
fd_write_loop [] sent (b ∷ buf) = ok (sent ++ (b ∷ buf), [])
fd_write_loop (interrupted ∷ script) sent (b ∷ buf) = fd_write_loop script sent (b ∷ buf)
fd_write_loop (failed ∷ script) sent (b ∷ buf) = fault check_failed
fd_write_loop (wrote r ∷ script) sent (b ∷ buf) =
    fd_write_loop script (sent ++ take r (b ∷ buf)) (drop r (b ∷ buf))

-- `FDWrite(fd, buf, len)`. A descriptor that is not open makes `write` fail with `EBADF`.
unfoldable pub fd_write : ℕ → List ℕ → Os → Run Os
unfolding fd_write_loop
fd_write fd [] os = ok os
fd_write fd (b ∷ buf) os = elim (os.fds fd) [
  | none ↦ fault check_failed
  | some path ↦ fd_write_loop os.writes (os.files path) (b ∷ buf) >>= λ r.
      ok (record os { files = update_file os.files path r.0; writes = r.1 })
]

unfoldable pub print : Message → Os → Os
print m os = record os { console = m ∷ os.console }

pub open_file-some :
    (fname : List ℕ) (os : Os) (fd : ℕ)
    → open_answer os.opens ≡ some fd
    → open_file fname os ≡ (some fd, opened fd fname os)
unfolding open_file
open_file-some fname os fd h = rw (h, open_file)

pub open_file-none :
    (fname : List ℕ) (os : Os)
    → open_answer os.opens ≡ none
    → open_file fname os ≡ (none, record os { opens = later_opens os.opens })
unfolding open_file
open_file-none fname os h = rw (h, open_file)

-- ===== src/Tests/Files.antt =====
-- The theorems about `FDWrite` and the Java reader at concrete inputs, and a run of the reader.
use javaprofiler.Base.{take, drop, ℕ, ◌≡◌, ◌≢◌, refl, ◌⊎◌, List, [], ◌∷◌, ◌++◌, arith}
use javaprofiler.Run.{ok, Returns, fault, check_failed}
use javaprofiler.Os.{Os, failed, wrote, opened, fd_write, fd_write_loop}
use javaprofiler.Os.FdWrite.{Appended, fd_write-Appended, fd_write-all_or_abort}
use javaprofiler.Reader.{more, read_file, read_slot, read_slot_from}
use javaprofiler.Reader.Termination.{read_file-ends}
use javaprofiler.Tests.{path, script, system}

-- A buffer of six bytes.
abbrev buffer : List ℕ
buffer = 1 ∷ 2 ∷ 3 ∷ 4 ∷ 5 ∷ 6 ∷ []

abbrev open_system : Os
open_system = opened 5 path system

-- The loop goes on after the interruption and after the short write.
short_write : fd_write_loop script [] buffer ≡ ok (buffer, [])
unfolding fd_write_loop take drop
short_write = refl

fd_write-Appended_example :
    Returns (fd_write 5 buffer open_system) (Appended path buffer open_system)
fd_write-Appended_example = fd_write-Appended 5 buffer path open_system refl tt

-- The disk becomes full after two bytes.
abbrev full_system : Os
full_system = record open_system { writes = wrote 2 ∷ failed ∷ [] }

fd_write-all_or_abort_example :
    Returns
      (fd_write 5 buffer full_system)
      (λ os'. os'.files path ≡ full_system.files path ++ buffer)
    ⊎ (fd_write 5 buffer full_system ≡ fault check_failed)
fd_write-all_or_abort_example = fd_write-all_or_abort 5 buffer path full_system refl

-- A file that ends within the header, after the number of its slots and one more byte.
abbrev pub cut_file : List ℕ
cut_file = 0 ∷ 0 ∷ 0 ∷ 0 ∷ 0 ∷ 0 ∷ 0 ∷ 0 ∷ 3 ∷ 0 ∷ 0 ∷ 0 ∷ 0 ∷ 0 ∷ 0 ∷ 0 ∷ 9 ∷ []

pub cut_file-slots : (read_slot (read_slot cut_file).1).0 ≡ 3
unfolding read_slot read_slot_from
cut_file-slots = refl

read_file-ends_example : read_file cut_file ≢ more
read_file-ends_example = read_file-ends cut_file (omega (arith, cut_file-slots))

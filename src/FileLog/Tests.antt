-- ===== src/FileLog/Tests.antt =====
-- A log on concrete files, and the theorem on it.
use mathlib.Core.Option.{some-injective}
use http_nest.Prelude.{
  ℕ, ◌<◌, ◌≡◌, refl, arith, Bool, true, false, List, [], ◌∷◌, Option, none, some, if◌then◌else◌,
  Bytes, codes, bytes_eq,
}
use http_nest.FileLog.{
  Disk, FileLog, k_rotate_hour, set_name, open_file, rename, new_file_log, open_log, write_log,
  dup_2, reopen, rotate, set_rotate, file_size,
}
use http_nest.FileLog.Archive.{read_name, Opened}
use http_nest.FileLog.Kept.{Act, writes, rotates, act, run, Reads, run-kept}

abbrev path : Bytes
path = codes "x"

abbrev disk : Disk
disk = record {
  names = set_name path (some 0) (λ name. none);
  contents = λ file. codes "a";
  next = 1;
}

abbrev log : FileLog
log = record { fd = some 0; rotate_type = k_rotate_hour; file_path = path }

abbrev acts : List Act
acts =
    writes 2 (codes "bc")
    ∷ rotates (codes "x1")
    ∷ writes 1 (codes "de")
    ∷ rotates (codes "x2")
    ∷ writes 1 (codes "f")
    ∷ []

-- Opening the log gives it the file of its path, and a second file is made for another path.
open_log_test :
    ((open_log true path disk new_file_log).1.fd ≡ some 0)
    × ((open_log true (codes "y") disk new_file_log).1.fd ≡ some 1)
    × ((open_log false path disk new_file_log).2 ≡ false)
    × (file_size disk log ≡ some 1)
    × ((set_rotate k_rotate_hour new_file_log).rotate_type ≡ k_rotate_hour)
unfolding set_rotate open_log open_file bytes_eq file_size
open_log_test = (refl, refl, refl, refl, refl)

run_test :
    (read_name (run acts disk log).0 (codes "x1") ≡ some (codes "abc"))
    × (read_name (run acts disk log).0 (codes "x2") ≡ some (codes "d"))
    × (read_name (run acts disk log).0 path ≡ some (codes "f"))
unfolding run act rotate reopen rename open_file dup_2 write_log bytes_eq
run_test = (refl, refl, refl)

-- A rotation to a name that a file has takes its place: what was moved first is lost.
overwritten_test :
    read_name
      (run (rotates (codes "x1") ∷ writes 1 (codes "b") ∷ rotates (codes "x1") ∷ []) disk log).0
      (codes "x1")
    ≡ some (codes "b")
unfolding run act rotate reopen rename open_file dup_2 write_log bytes_eq
overwritten_test = refl

only_path :
    (b : Bool) (file : ℕ)
    → ◌≡◌ {A = Option ℕ} (if b then some 0 else none) (some file)
    → (b ≡ true) × (file < 1)
only_path true file e = (refl, let z : 0 ≡ file = some-injective _ _ e in omega (arith, z))
only_path false file e = cc

disk-Opened : Opened disk log 0
unfolding bytes_eq
disk-Opened = record {
  opened = refl;
  has_path = omega arith;
  at_path = refl;
  only = λ name e. (only_path (bytes_eq path name) 0 e).0;
  known = λ name file e. (only_path (bytes_eq path name) file e).1;
}

run-kept_example :
    Reads (run acts disk log).0 ((codes "x2", codes "d") ∷ (codes "x1", codes "abc") ∷ [])
    × (read_name (run acts disk log).0 (run acts disk log).1.file_path ≡ some (codes "f"))
    × ((run acts disk log).1.fd ≡ (run acts disk log).0.names (run acts disk log).1.file_path)
unfolding run act rotate reopen rename open_file dup_2 write_log bytes_eq
run-kept_example = run-kept acts disk log 0 disk-Opened (tt, (refl, (tt, (refl, (tt, tt)))))

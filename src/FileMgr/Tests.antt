-- ===== src/FileMgr/Tests.antt =====
-- The manager of the logs on concrete input, and the theorems on it.
use http_nest.Prelude.{
  ℕ, ◌≡◌, refl, arith, true, false, [], ◌∷◌, none, some, Bytes, codes, bytes_eq,
}
use http_nest.Strings.{file_path, file_name_ext, file_name, extension}
use http_nest.Strings.Find.{one_of, find_last_of}
use http_nest.FileLog.{
  Disk, FileLog, k_rotate_minute, set_name, open_file, rename, new_file_log, open_log, dup_2,
  reopen, rotate, file_size,
}
use http_nest.FileMgr.{
  Stamp, FileMgr, Answers, digits, padded, days_text, hours_text, minutes_text, target, rotate_to,
  rotate_days, rotate_hours, rotate_minutes, type_eq, when, check_log, check_since, on_check,
  find_log, get_file_log, erase, remove_file_log,
}
use http_nest.FileMgr.Due.{check_log-due}
use http_nest.FileMgr.Target.{target_beside}

abbrev path : Bytes
path = codes "/logs/x.log"

abbrev disk : Disk
disk = record {
  names = set_name path (some 0) (λ name. none);
  contents = λ file. codes "a";
  next = 1;
}

abbrev log : FileLog
log = record { fd = some 0; rotate_type = k_rotate_minute; file_path = path }

abbrev at : ℕ → ℕ → Stamp
at hour minute = record { year = 2024; month = 3; day = 7; hour = hour; minute = minute }

abbrev succeed : Answers
succeed = record { renames = λ name. true; opens = λ name. true }

minutes_text_test : minutes_text (at 9 5) ≡ codes "_2024-03-07T0905"
unfolding minutes_text hours_text days_text padded digits
minutes_text_test = refl

check_log_test :
    (check_log succeed (at 9 5) (at 9 6) (disk, log)).0.names (codes "/logsx_2024-03-07T0905.log")
    ≡ some 0
unfolding check_log when type_eq rotate_minutes rotate_hours rotate_days rotate_to file_size rotate
    reopen rename open_file dup_2 target file_path file_name file_name_ext extension one_of
    find_last_of minutes_text hours_text days_text padded digits bytes_eq
check_log_test = refl

-- A minute later the log is moved; an hour later, at the same minute, it is not.
later_test : check_log succeed (at 9 5) (at 10 5) (disk, log) ≡ (disk, log)
unfolding check_log when type_eq
later_test = refl

check_log-due_example :
    check_log succeed (at 9 5) (at 9 6) (disk, log)
    ≡ rotate true true (target path (minutes_text (at 9 5))) disk log
unfolding file_size
check_log-due_example = check_log-due succeed (at 9 5) (at 9 6) disk log

target_beside_example : target path (codes "_1") ≡ codes "/logsx_1.log"
unfolding one_of
target_beside_example =
    target_beside (codes "/logs") (codes "x") (codes "log") (codes "_1") (omega arith) (refl, tt)
      (refl, (refl, (refl, tt))) (refl, (refl, (refl, tt)))

abbrev mgr : FileMgr
mgr = record { logs = []; last = none }

-- The first check only takes the time; a log is made once.
mgr_test :
    ((on_check succeed (at 9 5) disk mgr).1.last ≡ some (at 9 5))
    × ((get_file_log true path disk mgr).1.logs
        ≡ (path, record new_file_log { fd = some 0; file_path = path }) ∷ [])
    × ((get_file_log false path disk mgr).2 ≡ none)
    × ((get_file_log false path disk (record mgr { logs = (path, log) ∷ [] })).2 ≡ some log)
    × ((remove_file_log log (record mgr { logs = (path, log) ∷ [] })).logs ≡ [])
unfolding on_check check_since get_file_log find_log open_log open_file remove_file_log erase
    bytes_eq
mgr_test = (refl, refl, refl, refl, refl)

-- ===== src/FileMgr.antt =====
-- FileMgr: src/base/FileMgr.h and FileMgr.cpp over the logs of FileLog, with one thread at a time inside
-- the mutex. The local time that `Time::Now` fills in, and which calls of `rename` and `open` succeed, are
-- arguments.
pub mod Due
pub mod Target
mod Tests
use http_nest.Prelude.{
  ℕ, zero, suc, ◌+◌, ◌-◌, ◌/◌, ◌%◌, ◌++◌, Bool, true, false, not, ◌&&◌, List, [], ◌∷◌, Option, none,
  some, ltb, ◌==◌, if◌then◌else◌, length, replicate, Bytes, codes, bytes_eq,
}
use http_nest.Strings.{file_path, file_name, extension}
use http_nest.FileLog.{
  Disk, FileLog, RotateType, k_rotate_none, k_rotate_minute, k_rotate_hour, k_rotate_day,
  new_file_log, open_log, rotate, file_size,
}

-- The local time, as `Time::Now` fills it in.
pub record Stamp : Type 0 where
  pub year : ℕ
  pub month : ℕ
  pub day : ℕ
  pub hour : ℕ
  pub minute : ℕ

-- A `FileMgr`: the logs under their names, and the time of the last check, `none` while lastDay_ is -1.
pub record FileMgr : Type 0 where
  pub logs : List (Bytes × FileLog)
  pub last : Option Stamp

-- Which calls of `rename` and of `open` succeed, by the path of the log.
pub record Answers : Type 0 where
  pub renames : Bytes → Bool
  pub opens : Bytes → Bool

-- The digits of a number, on fuel: one a round.
unfoldable pub digits : ℕ → ℕ → Bytes
digits zero n = []
digits (suc fuel) n =
    let front = digits fuel (n / 10) in
    if ltb n 10 then (48 + n) ∷ [] else front ++ (48 + n % 10) ∷ []

-- `%d` with a width and what fills it.
unfoldable pub padded : ℕ → ℕ → ℕ → Bytes
padded fill width n = let text = digits (suc n) n in replicate (width - length text) fill ++ text

-- `%4d` and `%02d`.
abbrev pub four : ℕ → Bytes
four n = padded 32 4 n

abbrev pub two : ℕ → Bytes
two n = padded 48 2 n

-- `buf` of RotateDays, RotateHours and RotateMinutes.
unfoldable pub days_text : Stamp → Bytes
days_text s = codes "_" ++ four s.year ++ codes "-" ++ two s.month ++ codes "-" ++ two s.day

unfoldable pub hours_text : Stamp → Bytes
hours_text s = days_text s ++ codes "T" ++ two s.hour

unfoldable pub minutes_text : Stamp → Bytes
minutes_text s = hours_text s ++ two s.minute

-- The name that the log is moved to.
unfoldable pub target : Bytes → Bytes → Bytes
target path buf = file_path path ++ file_name path ++ buf ++ codes "." ++ extension path

-- `file->FileSize() > 0`.
abbrev pub has_bytes : Disk → FileLog → Bool
has_bytes disk log = elim (file_size disk log) [ none ↦ false | some size ↦ ltb 0 size ]

unfoldable pub rotate_to : Answers → Bytes → Disk × FileLog → Disk × FileLog
rotate_to answers buf entry =
    if has_bytes entry.0 entry.1
    then rotate (answers.renames entry.1.file_path) (answers.opens entry.1.file_path)
        (target entry.1.file_path buf) entry.0 entry.1
    else entry

unfoldable pub rotate_days : Answers → Stamp → Disk × FileLog → Disk × FileLog
rotate_days answers last entry = rotate_to answers (days_text last) entry

unfoldable pub rotate_hours : Answers → Stamp → Disk × FileLog → Disk × FileLog
rotate_hours answers last entry = rotate_to answers (hours_text last) entry

unfoldable pub rotate_minutes : Answers → Stamp → Disk × FileLog → Disk × FileLog
rotate_minutes answers last entry = rotate_to answers (minutes_text last) entry

-- `GetRotateType() == type`.
unfoldable pub type_eq : RotateType → RotateType → Bool
type_eq k_rotate_none k_rotate_none = true
type_eq k_rotate_minute k_rotate_minute = true
type_eq k_rotate_hour k_rotate_hour = true
type_eq k_rotate_day k_rotate_day = true
type_eq _ _ = false

-- One test of the loop over the logs.
unfoldable pub when :
    Bool → RotateType → (Disk × FileLog → Disk × FileLog) → Disk × FileLog → Disk × FileLog
when change type f entry = if change && type_eq entry.1.rotate_type type then f entry else entry

abbrev pub day_change : Stamp → Stamp → Bool
day_change last now = not (last.day == now.day)

abbrev pub hour_change : Stamp → Stamp → Bool
hour_change last now = not (last.hour == now.hour)

abbrev pub minute_change : Stamp → Stamp → Bool
minute_change last now = not (last.minute == now.minute)

-- The body of the loop.
unfoldable pub check_log : Answers → Stamp → Stamp → Disk × FileLog → Disk × FileLog
check_log answers last now entry =
    let minutes =
      when (minute_change last now) k_rotate_minute (rotate_minutes answers last) entry in
    let hours = when (hour_change last now) k_rotate_hour (rotate_hours answers last) minutes in
    when (day_change last now) k_rotate_day (rotate_days answers last) hours

unfoldable pub check_logs :
    Answers → Stamp → Stamp → Disk → List (Bytes × FileLog) → Disk × List (Bytes × FileLog)
check_logs answers last now disk [] = (disk, [])
check_logs answers last now disk ((key, log) ∷ logs) =
    let checked = check_log answers last now (disk, log) in
    let rest = check_logs answers last now checked.0 logs in (rest.0, (key, checked.1) ∷ rest.1)

-- `OnCheck` at a time.
unfoldable pub check_since : Answers → Stamp → Stamp → Disk → FileMgr → Disk × FileMgr
check_since answers last now disk mgr =
    if not (day_change last now) && not (hour_change last now) && not (minute_change last now)
    then (disk, record mgr { last = some last })
    else (
      (check_logs answers last now disk mgr.logs).0,
      record { logs = (check_logs answers last now disk mgr.logs).1; last = some now },
    )

unfoldable pub on_check : Answers → Stamp → Disk → FileMgr → Disk × FileMgr
on_check answers now disk mgr = elim mgr.last [
  | none ↦ check_since answers now now disk mgr
  | some last ↦ check_since answers last now disk mgr
]

unfoldable pub find_log : Bytes → List (Bytes × FileLog) → Option FileLog
find_log name [] = none
find_log name ((key, log) ∷ logs) =
    let rest = find_log name logs in if bytes_eq key name then some log else rest

-- `GetFileLog`, where `open` succeeds or not.
unfoldable pub get_file_log : Bool → Bytes → Disk → FileMgr → Disk × FileMgr × Option FileLog
get_file_log opens name disk mgr = elim (find_log name mgr.logs) [
  | some log ↦ (disk, mgr, some log)
  | none ↦
      let opened = open_log opens name disk new_file_log in
      if opened.2
      then (opened.0, record mgr { logs = (name, opened.1) ∷ mgr.logs }, some opened.1)
      else (disk, mgr, none)
]

unfoldable pub erase : Bytes → List (Bytes × FileLog) → List (Bytes × FileLog)
erase name [] = []
erase name ((key, log) ∷ logs) =
    let rest = erase name logs in if bytes_eq key name then rest else (key, log) ∷ rest

-- `RemoveFileLog`.
unfoldable pub remove_file_log : FileLog → FileMgr → FileMgr
remove_file_log log mgr = record mgr { logs = erase log.file_path mgr.logs }

-- ===== src/FileMgr/Due.antt =====
-- Which logs a check moves.
use http_nest.Prelude.{
  ℕ, ◌≡◌, ◌∙◌, refl, sym, ap, subst, Bool, true, false, ◌&&◌, ◌==◌, [], Option, none, some,
  if◌then◌else◌, if_elim, Bytes, length,
}
use http_nest.FileLog.{
  Disk, FileLog, RotateType, k_rotate_none, k_rotate_minute, k_rotate_hour, k_rotate_day, rename,
  dup_2, reopen, rotate, open_file,
}
use http_nest.FileMgr.{
  Stamp, Answers, days_text, hours_text, minutes_text, target, has_bytes, rotate_to, rotate_days,
  rotate_hours, rotate_minutes, type_eq, when, day_change, hour_change, minute_change, check_log,
}

-- Whether the field of the time that the rotate type names is another one.
abbrev pub due : RotateType → Stamp → Stamp → Bool
due k_rotate_none last now = false
due k_rotate_minute last now = minute_change last now
due k_rotate_hour last now = hour_change last now
due k_rotate_day last now = day_change last now

-- The time up to that field.
abbrev pub period_text : RotateType → Stamp → Bytes
period_text k_rotate_none last = []
period_text k_rotate_minute last = minutes_text last
period_text k_rotate_hour last = hours_text last
period_text k_rotate_day last = days_text last

abbrev log_type : FileLog → RotateType
log_type log = log.rotate_type

abbrev entry_type : Disk × FileLog → RotateType
entry_type entry = entry.1.rotate_type

-- A rotation keeps the rotate type.
dup_2-type : (file : ℕ) (log : FileLog) → (dup_2 file log).rotate_type ≡ log.rotate_type
unfolding dup_2
dup_2-type file log = by_fd log.fd
  where
    by_fd :
        (fd : Option ℕ)
        → log_type (elim fd [ none ↦ log | some _ ↦ record log { fd = some file } ])
          ≡ log.rotate_type
    by_fd none = refl
    by_fd (some f) = refl

reopen-type :
    (opens : Bool) (disk : Disk) (log : FileLog)
    → (reopen opens disk log).1.rotate_type ≡ log.rotate_type
unfolding reopen
reopen-type true disk log = dup_2-type (open_file log.file_path disk).1 log
reopen-type false disk log = refl

rotate-type :
    (renames opens : Bool) (name : Bytes) (disk : Disk) (log : FileLog)
    → (rotate renames opens name disk log).1.rotate_type ≡ log.rotate_type
unfolding rotate
rotate-type renames opens name disk log =
    by_path (length log.file_path == 0) renames (rename log.file_path name disk)
  where
    by_path :
        (b r : Bool) (moved : Option Disk)
        → entry_type (
            if b
            then (disk, log)
            else if r
            then elim moved [ none ↦ (disk, log) | some d ↦ reopen opens d log ]
            else (disk, log))
          ≡ log.rotate_type
    by_path true r moved = refl
    by_path false false moved = refl
    by_path false true none = refl
    by_path false true (some d) = reopen-type opens d log

rotate_to-type :
    (answers : Answers) (buf : Bytes) (entry : Disk × FileLog)
    → (rotate_to answers buf entry).1.rotate_type ≡ entry.1.rotate_type
unfolding rotate_to
rotate_to-type answers buf entry =
    if_elim (λ (e : Disk × FileLog). e.1.rotate_type ≡ entry.1.rotate_type)
      (has_bytes entry.0 entry.1) _ _ (λ _. rotate-type _ _ _ entry.0 entry.1) (λ _. refl)

-- One test of the loop, for a log of this type and for one of another type.
when_same :
    (change : Bool) (type : RotateType) (f : Disk × FileLog → Disk × FileLog)
    (entry : Disk × FileLog)
    → type_eq entry.1.rotate_type type ≡ true
    → when change type f entry ≡ (if change then f entry else entry)
unfolding when
when_same true type f entry e = rw e refl
when_same false type f entry e = refl

when_other :
    (change : Bool) (type : RotateType) (f : Disk × FileLog → Disk × FileLog)
    (entry : Disk × FileLog)
    → type_eq entry.1.rotate_type type ≡ false
    → when change type f entry ≡ entry
unfolding when
when_other true type f entry e = rw e refl
when_other false type f entry e = refl

when-type :
    (change : Bool) (type : RotateType) (answers : Answers) (buf : Bytes) (entry : Disk × FileLog)
    → entry_type (when change type (rotate_to answers buf) entry) ≡ entry_type entry
unfolding when
when-type change type answers buf entry =
    if_elim (λ e. entry_type e ≡ entry_type entry) (change && type_eq entry.1.rotate_type type) _ _
      (λ _. rotate_to-type answers buf entry) (λ _. refl)

check_log_once :
    (answers : Answers) (last now : Stamp) (disk : Disk) (log : FileLog)
    → check_log answers last now (disk, log) ≡ (
        if due log.rotate_type last now
        then rotate_to answers (period_text log.rotate_type last) (disk, log)
        else (disk, log))
unfolding check_log rotate_minutes rotate_hours rotate_days type_eq
check_log_once answers last now disk log = by_type log.rotate_type refl
  where
    to : RotateType → Disk × FileLog → Disk × FileLog
    to t = rotate_to answers (period_text t last)

    minutes : Disk × FileLog
    minutes = when (minute_change last now) k_rotate_minute (to k_rotate_minute) (disk, log)

    hours : Disk × FileLog
    hours = when (hour_change last now) k_rotate_hour (to k_rotate_hour) minutes

    minutes-type : entry_type minutes ≡ log.rotate_type
    minutes-type =
        when-type (minute_change last now) k_rotate_minute answers (minutes_text last) (disk, log)

    hours-type : entry_type hours ≡ log.rotate_type
    hours-type =
        when-type (hour_change last now) k_rotate_hour answers (hours_text last) minutes
        ∙ minutes-type

    skip_minute :
        (t : RotateType)
        → log.rotate_type ≡ t
        → type_eq t k_rotate_minute ≡ false
        → minutes ≡ (disk, log)
    skip_minute t e ne =
        when_other (minute_change last now) k_rotate_minute (to k_rotate_minute) (disk, log)
          (ap (λ r. type_eq r k_rotate_minute) e ∙ ne)

    skip_hour :
        (t : RotateType) → log.rotate_type ≡ t → type_eq t k_rotate_hour ≡ false → hours ≡ minutes
    skip_hour t e ne =
        when_other (hour_change last now) k_rotate_hour (to k_rotate_hour) minutes
          (ap (λ r. type_eq r k_rotate_hour) (minutes-type ∙ e) ∙ ne)

    skip_day :
        (t : RotateType)
        → log.rotate_type ≡ t
        → type_eq t k_rotate_day ≡ false
        → when (day_change last now) k_rotate_day (to k_rotate_day) hours ≡ hours
    skip_day t e ne =
        when_other (day_change last now) k_rotate_day (to k_rotate_day) hours
          (ap (λ r. type_eq r k_rotate_day) (hours-type ∙ e) ∙ ne)

    by_type :
        (t : RotateType)
        → log.rotate_type ≡ t
        → when (day_change last now) k_rotate_day (to k_rotate_day) hours
          ≡ (if due t last now then to t (disk, log) else (disk, log))
    by_type k_rotate_none e =
        skip_day k_rotate_none e refl
        ∙ (skip_hour k_rotate_none e refl ∙ skip_minute k_rotate_none e refl)
    by_type k_rotate_minute e =
        skip_day k_rotate_minute e refl
        ∙ (skip_hour k_rotate_minute e refl
            ∙ when_same (minute_change last now) k_rotate_minute (to k_rotate_minute) (disk, log)
                (ap (λ r. type_eq r k_rotate_minute) e))
    by_type k_rotate_hour e =
        skip_day k_rotate_hour e refl
        ∙ subst
            (λ m.
              when (hour_change last now) k_rotate_hour (to k_rotate_hour) m
              ≡ (if hour_change last now then to k_rotate_hour (disk, log) else (disk, log)))
            (sym (skip_minute k_rotate_hour e refl))
            (when_same (hour_change last now) k_rotate_hour (to k_rotate_hour) (disk, log)
              (ap (λ r. type_eq r k_rotate_hour) e))
    by_type k_rotate_day e =
        subst
          (λ m.
            when (day_change last now) k_rotate_day (to k_rotate_day) m
            ≡ (if day_change last now then to k_rotate_day (disk, log) else (disk, log)))
          (sym (skip_hour k_rotate_day e refl ∙ skip_minute k_rotate_day e refl))
          (when_same (day_change last now) k_rotate_day (to k_rotate_day) (disk, log)
            (ap (λ r. type_eq r k_rotate_day) e))

-- The check of a log is one call of `Rotate`, with the name of the last period, if the field of the time that
-- the rotate type of the log names is another one and the log has bytes, whatever else changed, and nothing
-- otherwise.
pub check_log-due :
    (answers : Answers) (last now : Stamp) (disk : Disk) (log : FileLog)
    → check_log answers last now (disk, log) ≡ (
        if due log.rotate_type last now && has_bytes disk log
        then rotate
            (answers.renames log.file_path)
            (answers.opens log.file_path)
            (target log.file_path (period_text log.rotate_type last))
            disk
            log
        else (disk, log))
unfolding rotate_to
check_log-due answers last now disk log =
    check_log_once answers last now disk log
    ∙ both (due log.rotate_type last now) (has_bytes disk log) _ (disk, log)
  where
    both :
        (d b : Bool) (x y : Disk × FileLog)
        → (if d then (if b then x else y) else y) ≡ (if d && b then x else y)
    both true b x y = refl
    both false b x y = refl

-- ===== src/FileMgr.antt =====
-- src/base/FileMgr.cpp. The table of logs is a list, each under its `file_path_`; the file system is
-- a parameter. The clock's reading is an argument. The fields `last_*_` are -1 until the first
-- check, which is `none` here.
pub mod Never
pub mod Names
mod Examples
use tmms.Common.{
  ℕ, ◌+◌, ◌-◌, Bool, true, false, ◌&&◌, ◌||◌, not, Option, none, some, List, [], ◌∷◌, ◌++◌, length,
  replicate, ◌==◌, if◌then◌else◌,
}
use tmms.StringUtils.{same, file_path, file_name, file_extension}
use tmms.InetAddress.{to_string}
use tmms.FileLog.{
  RotateType, rotate_hour, rotate_minute, rotate_day, rotate_none, FileSystem, FileLog, new_log,
  set_rotate, open_log, has_bytes, rotate,
}

pub record Stamp : Type 0 where
  pub year : ℕ
  pub month : ℕ
  pub day : ℕ
  pub hour : ℕ
  pub minute : ℕ

pub record FileMgr : Type 0 where
  pub logs : List FileLog
  pub last : Option Stamp

-- `%0wd`, and `%wd` with a space.
abbrev pub padded : ℕ → ℕ → ℕ → List ℕ
padded fill width n = replicate (width - length (to_string n)) fill ++ to_string n

abbrev pub day_text : Stamp → List ℕ
day_text t = 95 ∷ (padded 48 4 t.year ++ (45 ∷ (padded 48 2 t.month ++ (45 ∷ padded 48 2 t.day))))

abbrev pub hour_text : Stamp → List ℕ
hour_text t = day_text t ++ (84 ∷ padded 32 2 t.hour)

abbrev pub minute_text : Stamp → List ℕ
minute_text t = day_text t ++ (84 ∷ (padded 48 2 t.hour ++ (45 ∷ padded 48 2 t.minute)))

-- The name that the three rotations give.
pub rotated_name : List ℕ → List ℕ → List ℕ
rotated_name path buf = file_path path ++ (file_name path ++ (buf ++ file_extension path))

abbrev pub is_type : RotateType → RotateType → Bool
is_type rotate_hour rotate_hour = true
is_type rotate_minute rotate_minute = true
is_type rotate_day rotate_day = true
is_type rotate_none rotate_none = true
is_type _ _ = false

unfoldable pub find_log : List ℕ → List FileLog → Option FileLog
find_log name [] = none
find_log name (l ∷ ls) =
    let rest = find_log name ls in if same l.file_path name then some l else rest

unfoldable pub erase_log : List ℕ → List FileLog → List FileLog
erase_log name [] = []
erase_log name (l ∷ ls) =
    let rest = erase_log name ls in if same l.file_path name then ls else l ∷ rest

pub remove_file_log : FileLog → FileMgr → FileMgr
unfolding erase_log
remove_file_log log m = record m { logs = erase_log log.file_path m.logs }

module _ (F : FileSystem) where
  open F use {State}

  -- `RotateDays`, `RotateHours` and `RotateMinutes` with the text that each makes.
  pub rotate_as : List ℕ → FileLog → State → State
  unfolding rotated_name
  rotate_as buf log s =
      if has_bytes F log s then rotate F (rotated_name log.file_path buf) log s else s

  -- What changed between the stamps.
  abbrev pub changed : Stamp → Stamp → Bool × Bool × Bool
  changed last now =
      (not (last.day == now.day), not (last.hour == now.hour), not (last.minute == now.minute))

  -- The body of the loop over the logs, for a log of a type.
  pub check_as : RotateType → Stamp → Stamp → FileLog → State → State
  unfolding rotate_as
  check_as type last now log s =
      let (day, hour, minute) = changed last now in
      let s' =
        (if minute && is_type type rotate_minute then rotate_as (minute_text last) log s else s) in
      if day && is_type type rotate_day
      then rotate_as (day_text last) log s'
      else if hour && is_type type rotate_hour
      then rotate_as (hour_text last) log s'
      else s'

  pub check_log : Stamp → Stamp → FileLog → State → State
  unfolding check_as
  check_log last now log s = check_as log.rotate_type last now log s

  pub check_logs : Stamp → Stamp → List FileLog → State → State
  unfolding check_log
  check_logs last now [] s = s
  check_logs last now (l ∷ ls) s = check_logs last now ls (check_log last now l s)

  abbrev pub or_now : Option Stamp → Stamp → Stamp
  or_now none now = now
  or_now (some last) now = last

  -- `OnCheck`. `last_minute_` is set by the first check only.
  pub on_check : Stamp → FileMgr → State → FileMgr × State
  unfolding check_logs
  on_check now m s =
      let last = or_now m.last now in
      let (day, hour, minute) = changed last now in
      if day || hour || minute
      then (
        record m { last = some (record now { minute = last.minute }) },
        check_logs last now m.logs s,
      )
      else (record m { last = some last }, s)

  -- `GetFileLog` after `Open` has answered.
  abbrev pub added : FileMgr → (FileLog × Bool) × State → (FileMgr × Option FileLog) × State
  added m ((log, false), s) = ((m, none), s)
  added m ((log, true), s) = ((record m { logs = m.logs ++ (log ∷ []) }, some log), s)

  abbrev pub found_or_added :
      Option FileLog → List ℕ → FileMgr → State → (FileMgr × Option FileLog) × State
  found_or_added (some log) name m s = ((m, some log), s)
  found_or_added none name m s = added m (open_log F name new_log s)

  unfoldable pub get_file_log : List ℕ → FileMgr → State → (FileMgr × Option FileLog) × State
  unfolding find_log
  get_file_log name m s = found_or_added (find_log name m.logs) name m s

-- `SetRotate` of a log that the table shares with its user.
unfoldable pub set_rotate_of : List ℕ → RotateType → List FileLog → List FileLog
set_rotate_of name type [] = []
set_rotate_of name type (l ∷ ls) =
    (if same l.file_path name then set_rotate type l else l) ∷ set_rotate_of name type ls

-- ===== src/FileMgr/Examples.antt =====
-- Runs of the manager and examples of its theorems.
use tmms.Common.{ℕ, ◌≡◌, refl, none, List, [], ◌∷◌}
use tmms.InetAddress.{digits}
use tmms.FileLog.{rotate_minute}
use tmms.FileLog.Disk.{Disk, memory}
use tmms.FileMgr.{Stamp, FileMgr, day_text, on_check, get_file_log, set_rotate_of}
use tmms.FileMgr.Never.{Reached, starts, gets, sets, on_check_never}

abbrev disk : Disk
disk = record { names = λ p. none; fds = λ g. none; next_inode = 1; next_fd = 3 }

abbrev start : FileMgr
start = record { logs = []; last = none }

abbrev new_year : Stamp
new_year = record { year = 2026; month = 1; day = 1; hour = 0; minute = 0 }

-- `_2026-01-01`.
day_run : day_text new_year ≡ 95 ∷ 50 ∷ 48 ∷ 50 ∷ 54 ∷ 45 ∷ 48 ∷ 49 ∷ 45 ∷ 48 ∷ 49 ∷ []
unfolding digits
day_run = refl

-- `a.b`.
abbrev name : List ℕ
name = 97 ∷ 46 ∷ 98 ∷ []

abbrev opened : FileMgr
opened = (get_file_log memory name start disk).0.0

abbrev opened_disk : Disk
opened_disk = (get_file_log memory name start disk).1

abbrev asked : FileMgr
asked = record opened { logs = set_rotate_of name rotate_minute opened.logs }

asked-Reached : Reached memory asked opened_disk
asked-Reached = sets opened opened_disk name rotate_minute (gets start disk name (starts disk))

on_check_never_example : (on_check memory new_year asked opened_disk).1 ≡ opened_disk
on_check_never_example = on_check_never memory asked opened_disk new_year asked-Reached

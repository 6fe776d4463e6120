-- ===== src/FileLog/Examples.antt =====
-- Examples of the theorems about the log file.
use tmms.Common.{ℕ, ◌≡◌, refl, true, false, none, some, List, [], ◌∷◌, arith, ◌==◌, if◌then◌else◌}
use tmms.StringUtils.{same}
use tmms.FileLog.{rotate_none, FileLog, rotate, open_log, new_log, write_log, has_bytes}
use tmms.FileLog.Once.{rotate_once}
use tmms.FileLog.Disk.{Disk, memory, memory-IsPosix, moved, with_fd}

-- `a` and `b`.
abbrev old_name : List ℕ
old_name = 97 ∷ []

abbrev new_name : List ℕ
new_name = 98 ∷ []

abbrev log : FileLog
log = record { fd = some 3; file_path = old_name; rotate_type = rotate_none }

abbrev disk : Disk
disk = record {
  names = λ p. if same p old_name then some 1 else none;
  fds = λ g. if g == 3 then some 1 else none;
  next_inode = 2;
  next_fd = 4;
}

abbrev after_rename : Disk
after_rename = record disk { names = moved old_name new_name 1 disk.names }

abbrev after_open : Disk
after_open = record after_rename { fds = with_fd 4 (some 1) disk.fds; next_fd = 5 }

known : disk.names old_name ≡ some 1
unfolding same
known = refl

free : disk.names new_name ≡ none
unfolding same
free = refl

renames : memory.rename old_name new_name disk ≡ (true, after_rename)
unfolding same
renames = refl

opens : memory.open_append new_name after_rename ≡ (some 4, after_open)
unfolding same
opens = refl

opened_log : (open_log memory old_name new_log disk).0.1 ≡ true
unfolding open_log same
opened_log = refl

wrote_nowhere : write_log memory new_name new_log disk ≡ disk
unfolding write_log
wrote_nowhere = refl

empty_unopened : has_bytes memory new_log disk ≡ false
unfolding has_bytes
empty_unopened = refl

rotate_once_example :
    let d' = rotate memory new_name log disk in
    (memory.refers 3 d' ≡ some 1)
    × (memory.inode new_name d' ≡ some 1)
    × (memory.inode old_name d' ≡ none)
    × ((later : List ℕ) → rotate memory later log d' ≡ d')
rotate_once_example =
    rotate_once memory memory-IsPosix log new_name 3 1 1 4 disk after_rename after_open refl refl
      refl known (λ e. absurd (ground (arith, e, free))) renames opens (omega arith)

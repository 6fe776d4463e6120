-- ===== src/FileLog.antt =====
-- src/base/FileLog.cpp. The file system is a parameter. A path is the list of its bytes, a
-- descriptor a number, -1 is `none`.
pub mod Once
pub mod Disk
mod Examples
use tmms.Common.{ℕ, Bool, true, false, Option, none, some, List, [], ◌∷◌, ltb, if◌then◌else◌}

pub data RotateType : Type 0 where
  rotate_hour rotate_minute rotate_day rotate_none : RotateType

-- The system calls that the log uses, and two observations: the file that a path names and the file
-- that a descriptor refers to.
pub record FileSystem : Type 1 where
  pub State : Type 0
  pub open_append : List ℕ → State → Option ℕ × State
  pub rename : List ℕ → List ℕ → State → Bool × State
  pub dup2 : ℕ → ℕ → State → State
  pub close : ℕ → State → State
  pub write : ℕ → List ℕ → State → State
  pub size : ℕ → State → ℕ
  pub inode : List ℕ → State → Option ℕ
  pub refers : ℕ → State → Option ℕ

pub record FileLog : Type 0 where
  pub fd : Option ℕ
  pub file_path : List ℕ
  pub rotate_type : RotateType

-- A default `FileLog`.
abbrev pub new_log : FileLog
new_log = record { fd = none; file_path = []; rotate_type = rotate_none }

-- The body is empty.
unfoldable pub set_rotate : RotateType → FileLog → FileLog
set_rotate type log = log

abbrev pub is_empty : List ℕ → Bool
is_empty [] = true
is_empty (c ∷ cs) = false

module _ (F : FileSystem) where
  open F use {State, open_append, rename, dup2, close, write, size}

  -- The log after `open` has answered.
  abbrev pub opened : List ℕ → FileLog → Option ℕ × State → (FileLog × Bool) × State
  opened path log (none, s) = ((record log { file_path = path }, false), s)
  opened path log (some fd, s) = ((record log { file_path = path; fd = some fd }, true), s)

  unfoldable pub open_log : List ℕ → FileLog → State → (FileLog × Bool) × State
  open_log path log s = opened path log (open_append path s)

  -- Writing to descriptor -1 fails; the local `fd` of the code is not used.
  pub write_log : List ℕ → FileLog → State → State
  write_log msg log s = elim log.fd [ none ↦ s | some fd ↦ write fd msg s ]

  -- `lseek` of descriptor -1 returns -1, which is not above 0.
  unfoldable pub has_bytes : FileLog → State → Bool
  has_bytes log s = elim log.fd [ none ↦ false | some fd ↦ ltb 0 (size fd s) ]

  -- `dup2` to descriptor -1 fails.
  pub redirect : ℕ → Option ℕ → State → State
  redirect fd none s = close fd s
  redirect fd (some g) s = close fd (dup2 fd g s)

  -- After `open` of the new name has answered.
  abbrev pub take_over : FileLog → Option ℕ × State → State
  unfolding redirect
  take_over log (none, s) = s
  take_over log (some fd, s) = redirect fd log.fd s

  -- After `rename` has answered.
  abbrev pub renamed : List ℕ → FileLog → Bool × State → State
  unfolding take_over
  renamed file log (false, s) = s
  renamed file log (true, s) = take_over log (open_append file s)

  unfoldable pub rotate : List ℕ → FileLog → State → State
  unfolding renamed
  rotate file log s =
      if is_empty log.file_path then s else renamed file log (rename log.file_path file s)

-- ===== src/FileLog/Once.antt =====
-- What a rotation of src/base/FileLog.cpp does to the file that is written.
use tmms.Common.{ℕ, ◌≡◌, sym, ap, ◌∙◌, ◌≢◌, true, false, none, some, List, if◌then◌else◌}
use tmms.FileLog.{FileSystem, FileLog, is_empty, redirect, renamed, take_over, rotate}

-- What POSIX says of the calls, as far as it concerns which file is meant, for paths that are no
-- symbolic links. A `rename` between two names of one file does nothing and succeeds, so what it moves
-- is said for a new name that is free or names another file.
pub record IsPosix (F : FileSystem) : Type 0 where
  pub rename_moves :
      (old new : List ℕ) (s s' : F.State)
      → F.rename old new s ≡ (true, s')
      → F.inode old s ≢ F.inode new s
      → (F.inode old s' ≡ none) × (F.inode new s' ≡ F.inode old s)
  pub rename_missing :
      (old new : List ℕ) (s : F.State) → F.inode old s ≡ none → F.rename old new s ≡ (false, s)
  pub refers-rename :
      (old new : List ℕ) (g : ℕ) (s s' : F.State)
      → F.rename old new s ≡ (true, s')
      → F.refers g s' ≡ F.refers g s
  pub open_names :
      (path : List ℕ) (i fd : ℕ) (s s' : F.State)
      → F.inode path s ≡ some i
      → F.open_append path s ≡ (some fd, s')
      → F.refers fd s' ≡ some i
  pub open_keeps :
      (path p : List ℕ) (i fd : ℕ) (s s' : F.State)
      → F.inode path s ≡ some i
      → F.open_append path s ≡ (some fd, s')
      → F.inode p s' ≡ F.inode p s
  pub refers-open :
      (path : List ℕ) (fd g : ℕ) (s s' : F.State)
      → F.open_append path s ≡ (some fd, s')
      → g ≢ fd
      → F.refers g s' ≡ F.refers g s
  pub refers-dup2 :
      (fd g i j : ℕ) (s : F.State)
      → F.refers fd s ≡ some i
      → F.refers g s ≡ some j
      → F.refers g (F.dup2 fd g s) ≡ some i
  pub inode-dup2 : (fd g : ℕ) (s : F.State) (p : List ℕ) → F.inode p (F.dup2 fd g s) ≡ F.inode p s
  pub refers-close : (fd g : ℕ) (s : F.State) → g ≢ fd → F.refers g (F.close fd s) ≡ F.refers g s
  pub inode-close : (fd : ℕ) (s : F.State) (p : List ℕ) → F.inode p (F.close fd s) ≡ F.inode p s

-- A log whose file has no name any more cannot be rotated.
rotate_missing :
    (F : FileSystem) (posix : IsPosix F) (log : FileLog) (file : List ℕ) (s : F.State)
    → is_empty log.file_path ≡ false
    → F.inode log.file_path s ≡ none
    → rotate F file log s ≡ s
unfolding rotate renamed
rotate_missing F posix log file s named missing =
    ap (λ b. if b then s else renamed F file log (F.rename log.file_path file s)) named
    ∙ ap (renamed F file log) (posix.rename_missing log.file_path file s missing)

module _ (F : FileSystem) (posix : IsPosix F) (log : FileLog) (file : List ℕ) (g i : ℕ) where
  -- The calls of a rotation in which none fails.
  rotate-close :
      (fd : ℕ) (s s1 s2 : F.State)
      → is_empty log.file_path ≡ false
      → log.fd ≡ some g
      → F.rename log.file_path file s ≡ (true, s1)
      → F.open_append file s1 ≡ (some fd, s2)
      → rotate F file log s ≡ F.close fd (F.dup2 fd g s2)
  unfolding rotate redirect renamed take_over
  rotate-close fd s s1 s2 named own r o =
      ap (λ b. if b then s else renamed F file log (F.rename log.file_path file s)) named
      ∙ ap (renamed F file log) r
      ∙ ap (take_over F log) o
      ∙ ap (λ h. redirect F fd h s2) own

-- Let the log's descriptor be open, and let the new name be free or name another file than the log's
-- name. After a rotation in which no call fails, the log's descriptor refers to the file that had the
-- log's name, which now has the new name, and no file has the log's name. Every later rotation does
-- nothing, since there is no file to rename.
pub rotate_once :
    (F : FileSystem) (posix : IsPosix F) (log : FileLog) (file : List ℕ) (g i j fd : ℕ)
    (s s1 s2 : F.State)
    → is_empty log.file_path ≡ false
    → log.fd ≡ some g
    → F.refers g s ≡ some j
    → F.inode log.file_path s ≡ some i
    → F.inode file s ≢ some i
    → F.rename log.file_path file s ≡ (true, s1)
    → F.open_append file s1 ≡ (some fd, s2)
    → g ≢ fd
    → let s' = rotate F file log s in
      (F.refers g s' ≡ some i)
      × (F.inode file s' ≡ some i)
      × (F.inode log.file_path s' ≡ none)
      × ((later : List ℕ) → rotate F later log s' ≡ s')
rotate_once F posix log file g i j fd s s1 s2 named own is_open known other_file r o apart =
    let e = rotate-close F posix log file g i fd s s1 s2 named own r o in
    let (gone, here) =
      posix.rename_moves log.file_path file s s1 r (λ same. other_file (sym same ∙ known)) in
    let moved = here ∙ known in
    let still_open =
      posix.refers-open file fd g s1 s2 o apart
      ∙ posix.refers-rename log.file_path file g s s1 r
      ∙ is_open in
    let writes =
      posix.refers-close fd g (F.dup2 fd g s2) apart
      ∙ posix.refers-dup2 fd g i j s2 (posix.open_names file i fd s1 s2 moved o) still_open in
    let names = λ (p : List ℕ).
      posix.inode-close fd (F.dup2 fd g s2) p
      ∙ posix.inode-dup2 fd g s2 p
      ∙ posix.open_keeps file p i fd s1 s2 moved o in
    let missing = ap (F.inode log.file_path) e ∙ names log.file_path ∙ gone in
    (
      ap (F.refers g) e ∙ writes,
      ap (F.inode file) e ∙ names file ∙ moved,
      missing,
      λ later. idle (rotate F file log s) later missing,
    )
  where
    idle :
        (s' : F.State) (later : List ℕ)
        → F.inode log.file_path s' ≡ none
        → rotate F later log s' ≡ s'
    idle s' later missing = rotate_missing F posix log later s' named missing

-- ===== src/FileMgr/Never.antt =====
-- The rotation of src/base/FileMgr.cpp together with `SetRotate` of src/base/FileLog.cpp.
use tmms.Common.{
  ℕ, ◌≡◌, refl, ap, ◌∙◌, inl, inr, Bool, true, false, ◌&&◌, ◌||◌, not, Option, none, some, List, [],
  ◌∷◌, ◌++◌, ◌==◌, if◌then◌else◌, Bool-cases,
}
use tmms.StringUtils.{same}
use tmms.FileLog.{
  RotateType, rotate_none, FileSystem, FileLog, new_log, set_rotate, open_log, opened, write_log,
}
use tmms.FileMgr.{
  Stamp, FileMgr, find_log, erase_log, remove_file_log, check_as, check_log, check_logs, on_check,
  or_now, changed, added, found_or_added, get_file_log, set_rotate_of,
}

-- The manager and the files after calls of `GetFileLog`, `RemoveFileLog`, `SetRotate`, `WriteLog`
-- and `OnCheck`, from a new manager on.
pub data Reached (F : FileSystem) : FileMgr → F.State → Type 0 where
  starts : (s : F.State) → Reached F (record { logs = []; last = none }) s
  gets :
      (m : FileMgr) (s : F.State) (name : List ℕ)
      → Reached F m s
      → Reached F (get_file_log F name m s).0.0 (get_file_log F name m s).1
  removes :
      (m : FileMgr) (s : F.State) (log : FileLog)
      → Reached F m s
      → Reached F (remove_file_log log m) s
  sets :
      (m : FileMgr) (s : F.State) (name : List ℕ) (type : RotateType)
      → Reached F m s
      → Reached F (record m { logs = set_rotate_of name type m.logs }) s
  writes :
      (m : FileMgr) (s : F.State) (log : FileLog) (msg : List ℕ)
      → Reached F m s
      → Reached F m (write_log F msg log s)
  checks :
      (m : FileMgr) (s : F.State) (now : Stamp)
      → Reached F m s
      → Reached F (on_check F now m s).0 (on_check F now m s).1

-- No log of the list is to be rotated.
abbrev pub Fixed : List FileLog → Type 0
Fixed [] = Unit {0}
Fixed (l ∷ ls) = (l.rotate_type ≡ rotate_none) × Fixed ls

Fixed-append :
    (ls : List FileLog) (l : FileLog)
    → Fixed ls
    → l.rotate_type ≡ rotate_none
    → Fixed (ls ++ (l ∷ []))
Fixed-append [] l h e = (e, _)
Fixed-append (x ∷ xs) l (a, h) e = (a, Fixed-append xs l h e)

erase_log-Fixed : (name : List ℕ) (ls : List FileLog) → Fixed ls → Fixed (erase_log name ls)
unfolding erase_log
erase_log-Fixed name [] h = h
erase_log-Fixed name (l ∷ ls) (e, h) = elim (Bool-cases (same l.file_path name)) [
  | inl hit ↦ rw hit h
  | inr miss ↦ rw miss (e, erase_log-Fixed name ls h)
]

set_rotate_of-Fixed :
    (name : List ℕ) (type : RotateType) (ls : List FileLog)
    → Fixed ls
    → Fixed (set_rotate_of name type ls)
unfolding set_rotate_of set_rotate
set_rotate_of-Fixed name type [] h = h
set_rotate_of-Fixed name type (l ∷ ls) (e, h) = (
  elim (same l.file_path name) as (λ b. (if b then l else l).rotate_type ≡ rotate_none) [
    | true ↦ e
    | false ↦ e
  ],
  set_rotate_of-Fixed name type ls h,
)

else_if {ℓ} : {A : Type ℓ} (b : Bool) (x y : A) → (if b && false then x else y) ≡ y
else_if true x y = refl
else_if false x y = refl

module _ (F : FileSystem) where
  check_log-Fixed :
      (last now : Stamp) (l : FileLog) (s : F.State)
      → l.rotate_type ≡ rotate_none
      → check_log F last now l s ≡ s
  unfolding check_log check_as
  check_log-Fixed last now l s e =
      ap (λ t. check_as F t last now l s) e
      ∙ else_if (not (last.day == now.day)) _ _
      ∙ else_if (not (last.hour == now.hour)) _ _
      ∙ else_if (not (last.minute == now.minute)) _ _

  check_logs-Fixed :
      (last now : Stamp) (ls : List FileLog) (s : F.State)
      → Fixed ls
      → check_logs F last now ls s ≡ s
  unfolding check_logs
  check_logs-Fixed last now [] s h = refl
  check_logs-Fixed last now (l ∷ ls) s (e, h) =
      check_logs-Fixed last now ls (check_log F last now l s) h ∙ check_log-Fixed last now l s e

  pub on_check-Fixed :
      (now : Stamp) (m : FileMgr) (s : F.State)
      → Fixed m.logs
      → Fixed (on_check F now m s).0.logs × ((on_check F now m s).1 ≡ s)
  unfolding on_check
  on_check-Fixed now m s h =
      let last = or_now F m.last now in
      let (day, hour, minute) = changed F last now in
      either (day || hour || minute)
        (
          record m { last = some (record now { minute = last.minute }) },
          check_logs F last now m.logs s,
        )
        (record m { last = some last }, s) (h, check_logs-Fixed last now m.logs s h) (h, refl)
    where
      either :
          (b : Bool) (p q : FileMgr × F.State)
          → Fixed p.0.logs × (p.1 ≡ s)
          → Fixed q.0.logs × (q.1 ≡ s)
          → Fixed (if b then p else q).0.logs × ((if b then p else q).1 ≡ s)
      either true p q x y = x
      either false p q x y = y

  get_file_log-Fixed :
      (name : List ℕ) (m : FileMgr) (s : F.State)
      → Fixed m.logs
      → Fixed (get_file_log F name m s).0.0.logs
  unfolding get_file_log open_log
  get_file_log-Fixed name m s h = go (find_log name m.logs)
    where
      new : (q : Option ℕ × F.State) → Fixed (added F m (opened F name new_log q)).0.0.logs
      new (none, t) = h
      new (some fd, t) =
          Fixed-append m.logs (record { fd = some fd; file_path = name; rotate_type = rotate_none })
            h refl

      go : (o : Option FileLog) → Fixed (found_or_added F o name m s).0.0.logs
      go (some log) = h
      go none = new (F.open_append name s)

  Reached-Fixed : (m : FileMgr) (s : F.State) → Reached F m s → Fixed m.logs
  unfolding remove_file_log
  Reached-Fixed m s (starts t) = _
  Reached-Fixed m s (gets n t name r) = get_file_log-Fixed name n t (Reached-Fixed n t r)
  Reached-Fixed m s (removes n t log r) = erase_log-Fixed log.file_path n.logs (Reached-Fixed n t r)
  Reached-Fixed m s (sets n t name type r) =
      set_rotate_of-Fixed name type n.logs (Reached-Fixed n t r)
  Reached-Fixed m s (writes n t log msg r) = Reached-Fixed m t r
  Reached-Fixed m s (checks n t now r) = (on_check-Fixed now n t (Reached-Fixed n t r)).0

-- Whatever rotation the users of the logs ask for by `SetRotate`, and whatever was done before, a
-- check never touches a file: no log is ever rotated.
pub on_check_never :
    (F : FileSystem) (m : FileMgr) (s : F.State) (now : Stamp)
    → Reached F m s
    → (on_check F now m s).1 ≡ s
on_check_never F m s now r = (on_check-Fixed F now m s (Reached-Fixed F m s r)).1

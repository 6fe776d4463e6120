-- ===== src/FileLog/Disk.antt =====
-- A small file system in memory, on which the theorems about src/base/FileLog.cpp are applied.
use tmms.Common.{
  ℕ, ◌+◌, ◌≡◌, refl, sym, ap, ap₂, ◌∙◌, ◌≢◌, inl, inr, Bool, true, false, Option, none, some, List,
  arith, ◌==◌, if◌then◌else◌, Bool-cases,
}
use tmms.StringUtils.{same}
use tmms.StringUtils.Affixes.{same→eq, same_self}
use tmms.FileLog.{FileSystem}
use tmms.FileLog.Once.{IsPosix}

pub record Disk : Type 0 where
  pub names : List ℕ → Option ℕ
  pub fds : ℕ → Option ℕ
  pub next_inode : ℕ
  pub next_fd : ℕ

abbrev pub moved : List ℕ → List ℕ → ℕ → (List ℕ → Option ℕ) → List ℕ → Option ℕ
moved old new i names p = if same p old then none else if same p new then some i else names p

-- Nothing happens if both names are of the same file.
abbrev pub rename_as : Option ℕ → Option ℕ → List ℕ → List ℕ → Disk → Bool × Disk
rename_as none q old new d = (false, d)
rename_as (some i) none old new d = (true, record d { names = moved old new i d.names })
rename_as (some i) (some j) old new d =
    (true, if i == j then d else record d { names = moved old new i d.names })

abbrev pub with_fd : ℕ → Option ℕ → (ℕ → Option ℕ) → ℕ → Option ℕ
with_fd fd i fds g = if g == fd then i else fds g

abbrev pub open_as : Option ℕ → List ℕ → Disk → Option ℕ × Disk
open_as (some i) path d =
    (some d.next_fd, record d { fds = with_fd d.next_fd (some i) d.fds; next_fd = d.next_fd + 1 })
open_as none path d = (
  some d.next_fd,
  record d {
    names = λ p. if same p path then some d.next_inode else d.names p;
    fds = with_fd d.next_fd (some d.next_inode) d.fds;
    next_fd = d.next_fd + 1;
    next_inode = d.next_inode + 1;
  },
)

-- Files have no content here; each has one byte.
abbrev pub memory : FileSystem
memory = record {
  State = Disk;
  open_append = λ path d. open_as (d.names path) path d;
  rename = λ old new d. rename_as (d.names old) (d.names new) old new d;
  dup2 = λ fd g d. record d { fds = with_fd g (d.fds fd) d.fds };
  close = λ fd d. record d { fds = with_fd fd none d.fds };
  write = λ fd msg d. d;
  size = λ fd d. 1;
  inode = λ path d. d.names path;
  refers = λ fd d. d.fds fd;
}

module _ (old new : List ℕ) (d d' : Disk) where
  moved-names :
      (i : ℕ)
      → d.names old ≢ d.names new
      → record d { names = moved old new i d.names } ≡ d'
      → d.names old ≡ some i
      → (d'.names old ≡ none) × (d'.names new ≡ d.names old)
  moved-names i ne e known = (
    ap (λ x. x.names old) (sym e)
        ∙ ap (λ b. if b then none else if same old new then some i else d.names old)
            (same_self old),
    ap (λ x. x.names new) (sym e)
        ∙ ap₂ (λ b c. if b then none else if c then some i else d.names new) other (same_self new)
        ∙ sym known,
  )
    where
      other : same new old ≡ false
      other = elim (Bool-cases (same new old)) [
        | inl e ↦ absurd (ne (ap d.names (sym (same→eq new old e))))
        | inr e ↦ e
      ]

  rename_as-moves :
      (o q : Option ℕ)
      → d.names old ≡ o
      → d.names new ≡ q
      → rename_as o q old new d ≡ (true, d')
      → d.names old ≢ d.names new
      → (d'.names old ≡ none) × (d'.names new ≡ d.names old)
  rename_as-moves none q known other r ne = absurd (ground (arith, ap (λ q. q.0) r))
  rename_as-moves (some i) none known other r ne = moved-names i ne (ap (λ q. q.1) r) known
  rename_as-moves (some i) (some j) known other r ne =
      moved-names i ne (ap (λ b. if b then d else moved_disk) (sym apart) ∙ ap (λ q. q.1) r) known
    where
      moved_disk : Disk
      moved_disk = record d { names = moved old new i d.names }

      apart : (i == j) ≡ false
      apart = ground (arith, known, other, ne)

  rename_as-fds :
      (o q : Option ℕ) (g : ℕ) → rename_as o q old new d ≡ (true, d') → d'.fds g ≡ d.fds g
  rename_as-fds none q g r = absurd (ground (arith, ap (λ q. q.0) r))
  rename_as-fds (some i) none g r = ap (λ q. q.1.fds g) (sym r)
  rename_as-fds (some i) (some j) g r = ap (λ q. q.1.fds g) (sym r) ∙ either (i == j)
    where
      either :
          (b : Bool)
          → (if b then d else record d { names = moved old new i d.names }).fds g ≡ d.fds g
      either true = refl
      either false = refl

open_as-fds :
    (o : Option ℕ) (path : List ℕ) (fd g : ℕ) (d d' : Disk)
    → open_as o path d ≡ (some fd, d')
    → g ≢ fd
    → d'.fds g ≡ d.fds g
open_as-fds none path fd g d d' r ne = ap (λ q. q.1.fds g) (sym r) ∙ ground (arith, ap (λ q. q.0) r)
open_as-fds (some j) path fd g d d' r ne =
    ap (λ q. q.1.fds g) (sym r) ∙ ground (arith, ap (λ q. q.0) r)

open_as-names :
    (o : Option ℕ) (path : List ℕ) (i fd : ℕ) (d d' : Disk)
    → o ≡ some i
    → open_as o path d ≡ (some fd, d')
    → (d'.fds fd ≡ some i) × ((p : List ℕ) → d'.names p ≡ d.names p)
open_as-names none path i fd d d' e r = absurd (ground arith)
open_as-names (some j) path i fd d d' e r = (
  ap (λ q. q.1.fds fd) (sym r) ∙ ground (arith, ap (λ q. q.0) r),
  λ p. ap (λ q. q.1.names p) (sym r),
)

pub memory-IsPosix : IsPosix memory
memory-IsPosix = record {
  rename_moves =
      λ old new d d' r ne. rename_as-moves old new d d' (d.names old) (d.names new) refl refl r ne;
  refers-rename = λ old new g d d' r. rename_as-fds old new d d' (d.names old) (d.names new) g r;
  rename_missing = λ old new d e. ap (λ o. rename_as o (d.names new) old new d) e;
  open_names = λ path i fd d d' e r. (open_as-names (d.names path) path i fd d d' e r).0;
  open_keeps = λ path p i fd d d' e r. (open_as-names (d.names path) path i fd d d' e r).1 p;
  refers-open = λ path fd g d d' r ne. open_as-fds (d.names path) path fd g d d' r ne;
  refers-dup2 = λ fd g i j d e e'. ground (arith, e);
  inode-dup2 = λ fd g d p. refl;
  refers-close = λ fd g d ne. ground arith;
  inode-close = λ fd d p. refl;
}

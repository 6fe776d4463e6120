-- ===== src/StringUtils/Paths.antt =====
-- `FilePath`, `FileNameExt`, `FileName` and `FileExtension` of src/base/StringUtils.cpp take a path
-- apart at its last separator and its last dot.
use tmms.Common.{
  ℕ, ◌+◌, ◌≡◌, ◌≢◌, refl, ap, sym, ◌∙◌, Bool, true, false, none, some, List, [], ◌∷◌, ◌++◌, length,
  drop, arith, length-append, lt→ltb, ◌==◌, append_assoc,
}
use tmms.StringUtils.{
  find_last_of, file_path, file_name_ext, file_name, file_extension, is_separator, is_dot, stem,
  extension, dot, slash,
}
use tmms.StringUtils.Affixes.{take-append_self, drop-append_self}

-- No byte of the text passes the test.
abbrev pub Lacks : (ℕ → Bool) → List ℕ → Type 0
Lacks test [] = Unit {0}
Lacks test (c ∷ cs) = (test c ≡ false) × Lacks test cs

find_last_of-Lacks : (test : ℕ → Bool) (xs : List ℕ) → Lacks test xs → find_last_of test xs ≡ none
unfolding find_last_of
find_last_of-Lacks test [] h = refl
find_last_of-Lacks test (c ∷ cs) h = rw (find_last_of-Lacks test cs h.1, find_last_of, h.0)

find_last_of-append :
    (test : ℕ → Bool) (front : List ℕ) (c : ℕ) (back : List ℕ)
    → test c ≡ true
    → Lacks test back
    → find_last_of test (front ++ (c ∷ back)) ≡ some (length front)
unfolding find_last_of
find_last_of-append test [] c back t h = rw (find_last_of-Lacks test back h, find_last_of, t)
find_last_of-append test (x ∷ front) c back t h =
    rw (find_last_of-append test front c back t h, find_last_of)

drop_past :
    (front : List ℕ) (c : ℕ) (back : List ℕ) → drop (length front + 1) (front ++ (c ∷ back)) ≡ back
drop_past front c back =
    ap (drop (length front + 1)) (sym (append_assoc front (c ∷ []) back))
    ∙ drop-append_self (length front + 1) (front ++ (c ∷ [])) back
        (omega (arith, length-append front (c ∷ [])))

-- A path whose last separator is followed by a name splits there: `FilePath` is what stands before
-- the separator and `FileNameExt` the name.
pub path_parts :
    (dir : List ℕ) (sep : ℕ) (name : List ℕ)
    → is_separator sep ≡ true
    → Lacks is_separator name
    → name ≢ []
    → (file_path (dir ++ (sep ∷ name)) ≡ dir) × (file_name_ext (dir ++ (sep ∷ name)) ≡ name)
unfolding file_path file_name_ext
path_parts dir sep [] s h ne = absurd (ne refl)
path_parts dir sep (c ∷ cs) s h ne = (
  rw (find_last_of-append is_separator dir sep (c ∷ cs) s h, file_path)
      (take-append_self dir (sep ∷ c ∷ cs)),
  rw (find_last_of-append is_separator dir sep (c ∷ cs) s h, file_name_ext)
      (rw
        (lt→ltb (length dir + 1) (length (dir ++ (sep ∷ c ∷ cs)))
          (omega (arith, length-append dir (sep ∷ c ∷ cs))))
        (drop_past dir sep (c ∷ cs))),
)

-- A path with no separator has no directory and is its own name.
pub bare_name :
    (name : List ℕ) → Lacks is_separator name → (file_path name ≡ []) × (file_name_ext name ≡ name)
unfolding file_path file_name_ext
bare_name name h = (
  rw (find_last_of-Lacks is_separator name h, file_path),
  rw (find_last_of-Lacks is_separator name h, file_name_ext),
)

nonzero : (xs : List ℕ) → xs ≢ [] → (length xs == 0) ≡ false
nonzero [] ne = absurd (ne refl)
nonzero (x ∷ xs) ne = ground arith

module _ (base ext : List ℕ) (named : base ≢ []) (typed : ext ≢ []) (plain : Lacks is_dot ext) where
  stem_lem : stem (base ++ (dot ∷ ext)) ≡ base
  unfolding stem
  stem_lem =
      rw (find_last_of-append is_dot base dot ext refl plain, stem)
        (rw (nonzero base named) (take-append_self base (dot ∷ ext)))

  extension_lem : extension (base ++ (dot ∷ ext)) ≡ ext
  unfolding extension
  extension_lem = go base ext named typed plain
    where
      go :
          (xs ys : List ℕ) → xs ≢ [] → ys ≢ [] → Lacks is_dot ys → extension (xs ++ (dot ∷ ys)) ≡ ys
      go [] ys ne ny l = absurd (ne refl)
      go (x ∷ xs) [] ne ny l = absurd (ny refl)
      go (x ∷ xs) (y ∷ ys) ne ny l =
          rw
            (
              find_last_of-append is_dot (x ∷ xs) dot (y ∷ ys) refl l,
              extension,
              nonzero (x ∷ xs) ne,
            )
            (rw
              (lt→ltb (length (x ∷ xs) + 1) (length ((x ∷ xs) ++ (dot ∷ y ∷ ys)))
                (omega (arith, length-append (x ∷ xs) (dot ∷ y ∷ ys))))
              (drop_past (x ∷ xs) dot (y ∷ ys)))

-- For a path "dir/base.ext", where neither the name nor its extension holds a separator and the
-- extension holds no dot, the four functions return its parts.
pub path_roundtrip :
    (dir base ext : List ℕ)
    → base ≢ []
    → ext ≢ []
    → Lacks is_separator (base ++ (dot ∷ ext))
    → Lacks is_dot ext
    → let path = dir ++ (slash ∷ base ++ (dot ∷ ext)) in
      (file_path path ≡ dir)
      × (file_name_ext path ≡ base ++ (dot ∷ ext))
      × (file_name path ≡ base)
      × (file_extension path ≡ ext)
unfolding file_name file_extension
path_roundtrip dir base ext named typed l plain =
    let (d, n) = path_parts dir slash (base ++ (dot ∷ ext)) refl l (nonempty base) in
    (
      d,
      n,
      ap stem n ∙ stem_lem base ext named typed plain,
      ap extension n ∙ extension_lem base ext named typed plain,
    )
  where
    nonempty : (xs : List ℕ) → xs ++ (dot ∷ ext) ≢ []
    nonempty [] e = cc
    nonempty (x ∷ xs) e = cc

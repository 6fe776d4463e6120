-- ===== src/FileMgr/Names.antt =====
-- The names of rotated files in src/base/FileMgr.cpp.
use tmms.Common.{ℕ, ◌≡◌, ap, ap₂, ◌∙◌, ◌≢◌, List, [], ◌∷◌, ◌++◌}
use tmms.StringUtils.{slash, dot, is_separator, is_dot, file_extension}
use tmms.StringUtils.Paths.{Lacks, path_roundtrip}
use tmms.FileMgr.{rotated_name}

-- For a log `dir/base.ext`, whose name has no separator and whose extension has no dot, the rotated
-- file is named without the separator and without the dot: `dirbase`, the text and `ext` are put
-- one behind another, and so the file is not in the directory `dir`.
pub rotated_name_lem :
    (dir base ext buf : List ℕ)
    → base ≢ []
    → ext ≢ []
    → Lacks is_separator (base ++ (dot ∷ ext))
    → Lacks is_dot ext
    → rotated_name (dir ++ (slash ∷ base ++ (dot ∷ ext))) buf ≡ dir ++ (base ++ (buf ++ ext))
unfolding rotated_name
rotated_name_lem dir base ext buf named typed l plain =
    let (d, _, b, e) = path_roundtrip dir base ext named typed l plain in
    ap₂ (λ x y. x ++ (y ++ (buf ++ file_extension (dir ++ (slash ∷ base ++ (dot ∷ ext)))))) d b
    ∙ ap (λ z. dir ++ (base ++ (buf ++ z))) e

-- ===== src/StringUtils/Examples.antt =====
-- Tests of src/base/StringUtils.cpp, and theorems applied to small texts.
use tmms.Common.{ℕ, ◌≡◌, refl, some, List, [], ◌∷◌}
use Prim.Native.Char.{code}
use Prim.Native.String.{String}
use tmms.StringUtils.{file_name, split_string, split_string_with_fsm}
use tmms.StringUtils.Split.{split_string_lem, nonempty, join, Clean}

-- The bytes of an ASCII text.
abbrev text : String → List ℕ
text String.[] = []
text (String.◌∷◌ c s) = code c ∷ text s

split_string_runs :
    split_string (text "a::b::::c") (text "::") ≡ some (text "a" ∷ text "b" ∷ text "c" ∷ [])
unfolding split_string
split_string_runs = refl

split_string_with_fsm_runs : split_string_with_fsm (text "ab,cd") 44 ≡ text "a" ∷ []
unfolding split_string_with_fsm
split_string_with_fsm_runs = refl

file_name_runs : file_name (text "log/a.b.txt") ≡ text "a.b"
unfolding file_name
file_name_runs = refl

split_string_lem_example :
    (piece : List ℕ) × (pieces : List (List ℕ)) × (split_string (text "a,,b") (text ",")
      ≡ some (nonempty (piece ∷ pieces)))
    × (text "a,,b" ≡ join (text ",") piece pieces)
    × Clean (text ",") piece pieces
split_string_lem_example = split_string_lem (text "a,,b") (text ",") refl

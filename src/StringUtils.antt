-- ===== src/StringUtils.antt =====
-- src/base/StringUtils.cpp. A string is the list of its bytes; `std::string::npos` is `none`.
pub mod Affixes
pub mod Paths
pub mod Split
pub mod Fsm
mod Examples
use tmms.Common.{
  ℕ, zero, suc, ◌+◌, ◌-◌, Bool, true, false, ◌&&◌, ◌||◌, Option, none, some, List, [], ◌∷◌, ◌++◌,
  length, take, drop, ltb, ◌==◌, if◌then◌else◌,
}

abbrev pub is_empty : List ℕ → Bool
is_empty [] = true
is_empty (c ∷ cs) = false

-- `compare(...) == 0`.
unfoldable pub same : List ℕ → List ℕ → Bool
same [] [] = true
same (a ∷ xs) (b ∷ ys) = (a == b) && same xs ys
same _ _ = false

pub starts_with : List ℕ → List ℕ → Bool
starts_with s sub =
    if is_empty sub
    then true
    else if is_empty s
    then false
    else if ltb (length s) (length sub)
    then false
    else same (take (length sub) s) sub

pub ends_with : List ℕ → List ℕ → Bool
ends_with s sub =
    if is_empty sub
    then true
    else if is_empty s
    then false
    else if ltb (length s) (length sub)
    then false
    else same (drop (length s - length sub) s) sub

-- `find_last_of`: the last index whose byte passes the test.
unfoldable pub find_last_of : (ℕ → Bool) → List ℕ → Option ℕ
find_last_of test [] = none
find_last_of test (c ∷ cs) = elim (find_last_of test cs) [
  | some i ↦ some (suc i)
  | none ↦ if test c then some 0 else none
]

abbrev pub slash : ℕ
slash = 47

abbrev pub backslash : ℕ
backslash = 92

abbrev pub dot : ℕ
dot = 46

abbrev pub is_separator : ℕ → Bool
is_separator c = (c == slash) || (c == backslash)

abbrev pub is_dot : ℕ → Bool
is_dot c = c == dot

unfoldable pub file_path : List ℕ → List ℕ
unfolding find_last_of
file_path path = elim (find_last_of is_separator path) [ none ↦ [] | some pos ↦ take pos path ]

unfoldable pub file_name_ext : List ℕ → List ℕ
unfolding find_last_of
file_name_ext path = elim (find_last_of is_separator path) [
  | none ↦ path
  | some pos ↦ if ltb (pos + 1) (length path) then drop (pos + 1) path else path
]

stem : List ℕ → List ℕ
stem filename = elim (find_last_of is_dot filename) [
  | none ↦ filename
  | some pos ↦ if pos == 0 then filename else take pos filename
]

extension : List ℕ → List ℕ
extension filename = elim (find_last_of is_dot filename) [
  | none ↦ []
  | some pos ↦
      if pos == 0
      then []
      else if ltb (pos + 1) (length filename)
      then drop (pos + 1) filename
      else []
]

unfoldable pub file_name : List ℕ → List ℕ
unfolding file_name_ext stem
file_name path = stem (file_name_ext path)

unfoldable pub file_extension : List ℕ → List ℕ
unfolding file_name_ext extension
file_extension path = extension (file_name_ext path)

-- Is the first string a prefix of the second?
abbrev pub has_prefix : List ℕ → List ℕ → Bool
has_prefix [] s = true
has_prefix (a ∷ xs) [] = false
has_prefix (a ∷ xs) (c ∷ cs) = (a == c) && has_prefix xs cs

-- The first occurrence of the delimiter in a suffix that starts at index `first`.
pub find_in : List ℕ → List ℕ → ℕ → Option ℕ
find_in d [] first = none
find_in d (c ∷ cs) first =
    let later = find_in d cs (suc first) in if has_prefix d (c ∷ cs) then some first else later

-- `s.find(delimiter, last)` for a delimiter that is not empty.
pub find : List ℕ → List ℕ → ℕ → Option ℕ
unfolding find_in
find s d last = find_in d (drop last s) last

-- The loop of `SplitString`; `none` means that the fuel ran out.
pub split_loop : ℕ → List ℕ → List ℕ → ℕ → List (List ℕ) → Option (List (List ℕ))
unfolding find
split_loop zero s d last result = none
split_loop (suc fuel) s d last result = elim (find s d last) [
  | none ↦ some (if ltb last (length s) then result ++ (drop last s ∷ []) else result)
  | some next ↦
      split_loop fuel s d (next + length d)
        (if ltb last next then result ++ (take (next - last) (drop last s) ∷ []) else result)
]

pub split_string : List ℕ → List ℕ → Option (List (List ℕ))
unfolding split_loop
split_string s d = if is_empty d then some [] else split_loop (length s + 1) s d 0 []

pub data State : Type 0 where
  normal delimiter : State

-- The loop of `SplitStringwithFSM`. `pos++` stands in the body and in the loop's header, so that
-- two bytes go by where a byte is kept or a part is finished.
pub fsm_loop : State → List ℕ → ℕ → List ℕ → List (List ℕ) → List (List ℕ) × List ℕ
fsm_loop state [] d tmp result = (result, tmp)
fsm_loop normal (c ∷ []) d tmp result = if c == d then (result, tmp) else (result, tmp ++ (c ∷ []))
fsm_loop normal (c ∷ next ∷ cs) d tmp result =
    let stop = fsm_loop delimiter (next ∷ cs) d tmp result in
    let skip = fsm_loop normal cs d (tmp ++ (c ∷ [])) result in if c == d then stop else skip
fsm_loop delimiter (c ∷ []) d tmp result = (result ++ (tmp ∷ []), [])
fsm_loop delimiter (c ∷ next ∷ cs) d tmp result = fsm_loop normal cs d [] (result ++ (tmp ∷ []))

pub split_string_with_fsm : List ℕ → ℕ → List (List ℕ)
unfolding fsm_loop
split_string_with_fsm s d =
    let (result, tmp) = fsm_loop normal s d [] [] in
    if is_empty tmp then result else result ++ (tmp ∷ [])

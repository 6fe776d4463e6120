-- ===== src/Config/Names.antt =====
-- The keys of a document and the names of its levels and rotations, as src/base/Config.cpp spells them,
-- and what its chains of tests make of a name.
use tmms.Common.{
  ℕ, ◌≡◌, ◌≢◌, sym, ap, ◌∙◌, ◌↔◌, ◌⊎◌, inl, inr, Bool, true, false, List, [], ◌∷◌, if◌then◌else◌,
  Bool-cases,
}
use tmms.StringUtils.{same}
use tmms.StringUtils.Affixes.{same→eq, same_self}
use tmms.FileLog.{RotateType, rotate_hour, rotate_minute, rotate_day, rotate_none}
use tmms.Logger.{LogLevel, trace, debug, info, warn, error}
use tmms.Config.{level_named, rotate_named}

-- The keys of a document: "name", "cpu_start", "threads", "log", "level", "path" and "rotate".
abbrev pub name_text : List ℕ
name_text = 110 ∷ 97 ∷ 109 ∷ 101 ∷ []

abbrev pub cpu_start_text : List ℕ
cpu_start_text = 99 ∷ 112 ∷ 117 ∷ 95 ∷ 115 ∷ 116 ∷ 97 ∷ 114 ∷ 116 ∷ []

abbrev pub threads_text : List ℕ
threads_text = 116 ∷ 104 ∷ 114 ∷ 101 ∷ 97 ∷ 100 ∷ 115 ∷ []

abbrev pub log_text : List ℕ
log_text = 108 ∷ 111 ∷ 103 ∷ []

abbrev pub level_text : List ℕ
level_text = 108 ∷ 101 ∷ 118 ∷ 101 ∷ 108 ∷ []

abbrev pub path_text : List ℕ
path_text = 112 ∷ 97 ∷ 116 ∷ 104 ∷ []

abbrev pub rotate_text : List ℕ
rotate_text = 114 ∷ 111 ∷ 116 ∷ 97 ∷ 116 ∷ 101 ∷ []

-- What a text means by a table of names: the value of its first row with that name, and the default for
-- a text that no row has.
abbrev pub Means : {A : Type 0} → List (List ℕ × A) → A → List ℕ → A → Type 0
Means [] default text x = x ≡ default
Means ((name, y) ∷ rest) default text x =
    ((text ≡ name) × (x ≡ y)) ⊎ ((text ≢ name) × Means rest default text x)

-- "TRACE", "DEBUG", "INFO", "WARN" and "ERROR".
abbrev pub level_names : List (List ℕ × LogLevel)
level_names =
    (84 ∷ 82 ∷ 65 ∷ 67 ∷ 69 ∷ [], trace)
    ∷ (68 ∷ 69 ∷ 66 ∷ 85 ∷ 71 ∷ [], debug)
    ∷ (73 ∷ 78 ∷ 70 ∷ 79 ∷ [], info)
    ∷ (87 ∷ 65 ∷ 82 ∷ 78 ∷ [], warn)
    ∷ (69 ∷ 82 ∷ 82 ∷ 79 ∷ 82 ∷ [], error)
    ∷ []

-- "HOUR", "MINUTE" and "DAY".
abbrev pub rotate_names : List (List ℕ × RotateType)
rotate_names =
    (72 ∷ 79 ∷ 85 ∷ 82 ∷ [], rotate_hour)
    ∷ (77 ∷ 73 ∷ 78 ∷ 85 ∷ 84 ∷ 69 ∷ [], rotate_minute)
    ∷ (68 ∷ 65 ∷ 89 ∷ [], rotate_day)
    ∷ []

abbrev look_up : {A : Type 0} → List (List ℕ × A) → A → List ℕ → A
look_up [] default text = default
look_up ((name, y) ∷ rest) default text =
    let others = look_up rest default text in if same text name then y else others

-- A table with one more row.
look_up_row-Means :
    {A : Type 0} (name : List ℕ) (y : A) (rest : List (List ℕ × A)) (default : A) (text : List ℕ)
    (x : A)
    → x ≡ look_up rest default text ↔ Means rest default text x
    → x ≡ look_up ((name, y) ∷ rest) default text ↔ Means ((name, y) ∷ rest) default text x
look_up_row-Means {A} name y rest default text x (there, back) =
    elim (Bool-cases (same text name)) [
      | inl e ↦ (
        λ h. inl (same→eq text name e, h ∙ ap pick e),
        λ m. elim m [
          | inl (n, q) ↦ q ∙ sym (ap pick e)
          | inr (n, q) ↦ absurd (n (same→eq text name e))
        ],
      )
      | inr e ↦ (
        λ h. inr (clash e, there (h ∙ ap pick e)),
        λ m. elim m [ inl (n, q) ↦ absurd (clash e n) | inr (n, q) ↦ back q ∙ sym (ap pick e) ],
      )
    ]
  where
    pick : Bool → A
    pick b = if b then y else look_up rest default text

    clash : same text name ≡ false → text ≢ name
    clash e n =
        let yes : same text name ≡ true = ap (same text) (sym n) ∙ same_self text in absurd cc

look_up-Means :
    {A : Type 0} (table : List (List ℕ × A)) (default : A) (text : List ℕ) (x : A)
    → x ≡ look_up table default text ↔ Means table default text x
look_up-Means [] default text x = (λ h. h, λ h. h)
look_up-Means ((name, y) ∷ rest) default text x =
    look_up_row-Means name y rest default text x (look_up-Means rest default text x)

pub level_named-Means :
    (text : List ℕ) (x : LogLevel) → x ≡ level_named text trace ↔ Means level_names trace text x
unfolding level_named
level_named-Means text x = look_up-Means level_names trace text x

pub rotate_named-Means :
    (text : List ℕ) (x : RotateType) → x ≡ rotate_named text ↔ Means rotate_names rotate_none text x
unfolding rotate_named
rotate_named-Means text x = look_up-Means rotate_names rotate_none text x

-- ===== src/Config/Settings.antt =====
-- What a document says of the fields of src/base/Config.h, and the calls of src/base/Config.cpp that
-- read one field.
use tmms.Common.{
  ℕ, ◌≡◌, refl, sym, ap, ◌∙◌, subst, ◌↔◌, ◌⊎◌, inl, inr, Bool, true, false, Option, none, some,
  List, [], if◌then◌else◌, Result, ok, fault, ◌>>=◌,
}
use tmms.FileLog.{RotateType, rotate_none}
use tmms.Logger.{LogLevel, trace}
use tmms.Config.{
  Json, LogInfo, Config, Key, log_key, level_key, rotate_key, key_text, level_named, rotate_named,
  setting, read_level, read_rotate, parse_log_info,
}
use tmms.Config.Names.{
  name_text, cpu_start_text, threads_text, log_text, level_text, path_text, rotate_text, Means,
  level_names, rotate_names, level_named-Means, rotate_named-Means,
}

-- What a chain of calls returns goes through each of them.
pub ok-bind {ℓ κ} :
    {A : Type ℓ} {B : Type κ} (m : Result A) (f : A → Result B) (y : B)
    → m >>= f ≡ ok y
    → (x : A) × (m ≡ ok x) × (f x ≡ ok y)
ok-bind (ok x) f y h = (x, refl, h)
ok-bind (fault e) f y h = absurd cc

pub bind-ok {ℓ κ} :
    {A : Type ℓ} {B : Type κ} (m : Result A) (f : A → Result B) (x : A) → m ≡ ok x → m >>= f ≡ f x
bind-ok m f x h = ap (λ r. r >>= f) h

module _ (J : Json) where
  open J use {Value, member, is_null, as_string, as_int}

  -- The document has the key with a value that `Reads` the field, or a null there (as for a key that
  -- it has not) and the field is as it was.
  unfoldable pub Given {ℓ} : {A : Type ℓ} → List ℕ → (Value → A → Type ℓ) → A → Value → A → Type ℓ
  Given key Reads default root x =
      (v : Value) × (member key root ≡ ok v)
      × (((is_null v ≡ true) × (x ≡ default)) ⊎ ((is_null v ≡ false) × Reads v x))

  pub ReadsText : Value → List ℕ → Type 0
  ReadsText v text = as_string v ≡ ok text

  pub ReadsInt : Value → ℕ → Type 0
  ReadsInt v n = as_int v ≡ ok n

  pub ReadsLevel : Value → LogLevel → Type 0
  ReadsLevel v level =
      (text : List ℕ) × (as_string v ≡ ok text) × Means level_names trace text level

  pub ReadsRotate : Value → RotateType → Type 0
  ReadsRotate v type =
      (text : List ℕ) × (as_string v ≡ ok text) × Means rotate_names rotate_none text type

  unfoldable pub ReadsLog : Value → Option LogInfo → Type 0
  ReadsLog v log =
      (i : LogInfo) × (log ≡ some i)
      × Given level_text ReadsLevel trace v i.level
      × Given path_text ReadsText [] v i.path
      × Given name_text ReadsText [] v i.name
      × Given rotate_text ReadsRotate rotate_none v i.rotate_type

  -- The configuration is what the document says, on top of the default values.
  unfoldable pub Describes : Value → Config → Type 0
  Describes root c =
      Given name_text ReadsText [] root c.name
      × Given cpu_start_text ReadsInt 0 root c.cpu_start
      × Given threads_text ReadsInt 1 root c.threads_nums
      × Given log_text ReadsLog none root c.log_info

  setting-key {ℓ} :
      {A : Type ℓ} (key : Key) (read : Value → Result A) (Reads : Value → A → Type ℓ)
      → ((v : Value) (x : A) → read v ≡ ok x ↔ Reads v x)
      → (default : A) (root : Value) (x : A)
      → setting J key read default root ≡ ok x ↔ Given (key_text key) Reads default root x
  unfolding setting Given
  setting-key key read Reads means default root x = (there, back)
    where
      branch :
          (v : Value) (b : Bool)
          → is_null v ≡ b
          → (if b then ok default else read v) ≡ ok x
          → ((is_null v ≡ true) × (x ≡ default)) ⊎ ((is_null v ≡ false) × Reads v x)
      branch v true n h = inl (n, cc)
      branch v false n h = inr (n, (means v x).0 h)

      there : setting J key read default root ≡ ok x → Given (key_text key) Reads default root x
      there h =
          let (v, m, rest) =
            ok-bind (member (key_text key) root)
              (λ obj. if is_null obj then ok default else read obj) x h in
          (v, m, branch v (is_null v) refl rest)

      chosen :
          (v : Value)
          → ((is_null v ≡ true) × (x ≡ default)) ⊎ ((is_null v ≡ false) × Reads v x)
          → (if is_null v then ok default else read v) ≡ ok x
      chosen v (inl (n, e)) = ap (λ b. if b then ok default else read v) n ∙ ap ok (sym e)
      chosen v (inr (n, r)) = ap (λ b. if b then ok default else read v) n ∙ (means v x).1 r

      back : Given (key_text key) Reads default root x → setting J key read default root ≡ ok x
      back (v, m, given) =
          bind-ok (member (key_text key) root) (λ obj. if is_null obj then ok default else read obj)
            v m
          ∙ chosen v given

  pub setting-Given {ℓ} :
      {A : Type ℓ} (key : Key) (text : List ℕ) (read : Value → Result A)
      (Reads : Value → A → Type ℓ)
      → key_text key ≡ text
      → ((v : Value) (x : A) → read v ≡ ok x ↔ Reads v x)
      → (default : A) (root : Value) (x : A)
      → setting J key read default root ≡ ok x ↔ Given text Reads default root x
  setting-Given key text read Reads spelled means default root x =
      subst (λ t. setting J key read default root ≡ ok x ↔ Given t Reads default root x) spelled
        (setting-key key read Reads means default root x)

  read_level-ReadsLevel : (v : Value) (x : LogLevel) → read_level J trace v ≡ ok x ↔ ReadsLevel v x
  unfolding read_level ReadsLevel
  read_level-ReadsLevel v x = (
    λ h.
        let (text, e, r) = ok-bind (as_string v) (λ t. ok (level_named t trace)) x h in
        (text, e, (level_named-Means text x).0 cc),
    λ (text, e, m).
        bind-ok (as_string v) (λ t. ok (level_named t trace)) text e
        ∙ ap ok (sym ((level_named-Means text x).1 m)),
  )

  read_rotate-ReadsRotate : (v : Value) (x : RotateType) → read_rotate J v ≡ ok x ↔ ReadsRotate v x
  unfolding read_rotate ReadsRotate
  read_rotate-ReadsRotate v x = (
    λ h.
        let (text, e, r) = ok-bind (as_string v) (λ t. ok (rotate_named t)) x h in
        (text, e, (rotate_named-Means text x).0 cc),
    λ (text, e, m).
        bind-ok (as_string v) (λ t. ok (rotate_named t)) text e
        ∙ ap ok (sym ((rotate_named-Means text x).1 m)),
  )

  abbrev pub level_of : Value → Result LogLevel
  level_of v = setting J level_key (read_level J trace) trace v

  abbrev pub text_of : Key → Value → Result (List ℕ)
  text_of key v = setting J key as_string [] v

  abbrev pub rotate_of : Value → Result RotateType
  rotate_of v = setting J rotate_key (read_rotate J) rotate_none v

  abbrev pub int_of : Key → ℕ → Value → Result ℕ
  int_of key default v = setting J key as_int default v

  abbrev pub log_of : Value → Result (Option LogInfo)
  log_of v = setting J log_key (parse_log_info J) none v

  pub text_of-Given :
      (key : Key) (text : List ℕ) (v : Value) (x : List ℕ)
      → key_text key ≡ text
      → text_of key v ≡ ok x ↔ Given text ReadsText [] v x
  unfolding ReadsText
  text_of-Given key text v x spelled =
      setting-Given key text as_string ReadsText spelled (λ v x. (λ h. h, λ h. h)) [] v x

  pub int_of-Given :
      (key : Key) (text : List ℕ) (default : ℕ) (v : Value) (x : ℕ)
      → key_text key ≡ text
      → int_of key default v ≡ ok x ↔ Given text ReadsInt default v x
  unfolding ReadsInt
  int_of-Given key text default v x spelled =
      setting-Given key text as_int ReadsInt spelled (λ v x. (λ h. h, λ h. h)) default v x

  pub level_of-Given :
      (v : Value) (x : LogLevel) → level_of v ≡ ok x ↔ Given level_text ReadsLevel trace v x
  level_of-Given v x =
      setting-Given level_key level_text (read_level J trace) ReadsLevel refl read_level-ReadsLevel
        trace v x

  pub rotate_of-Given :
      (v : Value) (x : RotateType)
      → rotate_of v ≡ ok x ↔ Given rotate_text ReadsRotate rotate_none v x
  rotate_of-Given v x =
      setting-Given rotate_key rotate_text (read_rotate J) ReadsRotate refl read_rotate-ReadsRotate
        rotate_none v x

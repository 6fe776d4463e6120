-- ===== src/Config.antt =====
-- src/base/Config.h and Config.cpp, with JsonCpp as a parameter. An `int32_t` is its 32 bits. What
-- is thrown leaves `LoadConfig` and its object, which nobody else has. Locks are left out.
pub mod Names
pub mod Settings
pub mod Loading
pub mod Documents
mod Examples
use tmms.Common.{
  ℕ, Bool, true, false, Option, none, some, List, [], ◌∷◌, if◌then◌else◌, Result, ok, fault, ◌>>=◌,
  ◌>>◌,
}
use tmms.StringUtils.{same}
use tmms.FileLog.{RotateType, rotate_hour, rotate_minute, rotate_day, rotate_none}
use tmms.Logger.{LogLevel, trace, debug, info, warn, error}

-- What the code uses of `Json::Value`: a member by its key, which is thrown for a value that has no
-- members, and the conversions, which are thrown for a value of another kind.
pub record Json : Type 1 where
  pub Value : Type 0
  pub member : List ℕ → Value → Result Value
  pub is_null : Value → Bool
  pub as_string : Value → Result (List ℕ)
  pub as_int : Value → Result ℕ

pub record LogInfo : Type 0 where
  pub level : LogLevel
  pub path : List ℕ
  pub name : List ℕ
  pub rotate_type : RotateType

-- `std::make_shared<LogInfo>()` clears the level.
abbrev pub new_log_info : LogInfo
new_log_info = record { level = trace; path = []; name = []; rotate_type = rotate_none }

pub record Config : Type 0 where
  pub name : List ℕ
  pub cpu_start : ℕ
  pub threads_nums : ℕ
  pub log_info : Option LogInfo

abbrev pub new_config : Config
new_config = record { name = []; cpu_start = 0; threads_nums = 1; log_info = none }

-- "name", "cpu_start", "threads", "log", "level", "path" and "rotate".
pub data Key : Type 0 where
  name_key cpu_start_key threads_key log_key level_key path_key rotate_key : Key

abbrev pub key_text : Key → List ℕ
key_text name_key = 110 ∷ 97 ∷ 109 ∷ 101 ∷ []
key_text cpu_start_key = 99 ∷ 112 ∷ 117 ∷ 95 ∷ 115 ∷ 116 ∷ 97 ∷ 114 ∷ 116 ∷ []
key_text threads_key = 116 ∷ 104 ∷ 114 ∷ 101 ∷ 97 ∷ 100 ∷ 115 ∷ []
key_text log_key = 108 ∷ 111 ∷ 103 ∷ []
key_text level_key = 108 ∷ 101 ∷ 118 ∷ 101 ∷ 108 ∷ []
key_text path_key = 112 ∷ 97 ∷ 116 ∷ 104 ∷ []
key_text rotate_key = 114 ∷ 111 ∷ 116 ∷ 97 ∷ 116 ∷ 101 ∷ []

-- The chain of tests for the level; another text leaves it.
unfoldable pub level_named : List ℕ → LogLevel → LogLevel
level_named text level =
    if same text (84 ∷ 82 ∷ 65 ∷ 67 ∷ 69 ∷ [])
    then trace
    else if same text (68 ∷ 69 ∷ 66 ∷ 85 ∷ 71 ∷ [])
    then debug
    else if same text (73 ∷ 78 ∷ 70 ∷ 79 ∷ [])
    then info
    else if same text (87 ∷ 65 ∷ 82 ∷ 78 ∷ [])
    then warn
    else if same text (69 ∷ 82 ∷ 82 ∷ 79 ∷ 82 ∷ [])
    then error
    else level

-- The chain of tests for the rotation.
unfoldable pub rotate_named : List ℕ → RotateType
rotate_named text =
    if same text (72 ∷ 79 ∷ 85 ∷ 82 ∷ [])
    then rotate_hour
    else if same text (77 ∷ 73 ∷ 78 ∷ 85 ∷ 84 ∷ 69 ∷ [])
    then rotate_minute
    else if same text (68 ∷ 65 ∷ 89 ∷ [])
    then rotate_day
    else rotate_none

pub record ConfigMgr : Type 0 where
  pub config : Option Config

module _ (J : Json) where
  open J use {Value, member, is_null, as_string, as_int}

  -- `obj = root[key]; if(!obj.isNull()) field = read(obj)`; the result is the new value of the field.
  unfoldable pub setting {ℓ} : {A : Type ℓ} → Key → (Value → Result A) → A → Value → Result A
  setting key read field root = do
    obj ← member (key_text key) root
    if is_null obj then ok field else read obj

  unfoldable pub read_level : LogLevel → Value → Result LogLevel
  unfolding level_named
  read_level level v = do text ← as_string v; ok (level_named text level)

  unfoldable pub read_rotate : Value → Result RotateType
  unfolding rotate_named
  read_rotate v = do text ← as_string v; ok (rotate_named text)

  -- `ParseLogInfo`, with the new `log_info_`.
  unfoldable pub parse_log_info : Value → Result (Option LogInfo)
  unfolding setting read_level read_rotate
  parse_log_info root = do
    let i = new_log_info
    level ← setting level_key (read_level i.level) i.level root
    path ← setting path_key as_string i.path root
    name ← setting name_key as_string i.name root
    rotate_type ← setting rotate_key read_rotate i.rotate_type root
    ok (some (record { level = level; path = path; name = name; rotate_type = rotate_type }))

  -- `Config::LoadConfig`; the argument is what `parseFromStream` makes of the file.
  unfoldable pub load_config : Option Value → Config → Result (Bool × Config)
  unfolding setting parse_log_info
  load_config none c = ok (false, c)
  load_config (some root) c = do
    name ← setting name_key as_string c.name root
    cpu_start ← setting cpu_start_key as_int c.cpu_start root
    threads_nums ← setting threads_key as_int c.threads_nums root
    log_info ← setting log_key parse_log_info c.log_info root
    ok (
      true,
      record {
        name = name;
        cpu_start = cpu_start;
        threads_nums = threads_nums;
        log_info = log_info;
      },
    )

  abbrev pub loaded : Result (Bool × Config) → ConfigMgr → Result Bool × ConfigMgr
  loaded (fault e) m = (fault e, m)
  loaded (ok (false, c)) m = (ok false, m)
  loaded (ok (true, c)) m = (ok true, record m { config = some c })

  -- `ConfigMgr::LoadConfig`.
  unfoldable pub load : Option Value → ConfigMgr → Result Bool × ConfigMgr
  unfolding load_config
  load parsed m = loaded (load_config parsed new_config) m

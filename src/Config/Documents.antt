-- ===== src/Config/Documents.antt =====
-- A small JSON library in memory and a document, on which the theorems about src/base/Config.cpp are
-- applied.
use tmms.Common.{
  ℕ, ◌≡◌, refl, Bool, true, false, some, List, [], ◌∷◌, Result, ok, fault, json_error,
  if◌then◌else◌,
}
use tmms.StringUtils.{same}
use tmms.FileLog.{rotate_hour}
use tmms.Logger.{warn}
use tmms.Config.{
  Json, LogInfo, Config, Key, name_key, log_key, level_key, path_key, rotate_key, key_text,
  ConfigMgr, setting, read_level, read_rotate, parse_log_info, load_config, load, level_named,
  rotate_named,
}

pub data Doc : Type 0 where
  null_doc : Doc
  int_doc : ℕ → Doc
  text_doc : List ℕ → Doc
  object_doc : (List ℕ → Doc) → Doc

abbrev pub member_of : List ℕ → Doc → Result Doc
member_of key (object_doc members) = ok (members key)
member_of key null_doc = ok null_doc
member_of key (int_doc n) = fault json_error
member_of key (text_doc s) = fault json_error

abbrev pub doc_is_null : Doc → Bool
doc_is_null null_doc = true
doc_is_null _ = false

-- A null is the empty text and 0.
abbrev pub text_of : Doc → Result (List ℕ)
text_of null_doc = ok []
text_of (text_doc s) = ok s
text_of (int_doc n) = fault json_error
text_of (object_doc members) = fault json_error

abbrev pub int_of : Doc → Result ℕ
int_of null_doc = ok 0
int_of (int_doc n) = ok n
int_of (text_doc s) = fault json_error
int_of (object_doc members) = fault json_error

abbrev pub json : Json
json = record {
  Value = Doc;
  member = member_of;
  is_null = doc_is_null;
  as_string = text_of;
  as_int = int_of;
}

abbrev pub members_of : List (Key × Doc) → List ℕ → Doc
members_of [] key = null_doc
members_of ((k, v) ∷ rest) key =
    let others = members_of rest key in if same (key_text k) key then v else others

-- {"name": "t", "log": {"level": "WARN", "path": "l", "name": "a.b", "rotate": "HOUR"}}
abbrev pub log_doc : Doc
log_doc = object_doc (
    members_of (
      (level_key, text_doc (87 ∷ 65 ∷ 82 ∷ 78 ∷ []))
      ∷ (path_key, text_doc (108 ∷ []))
      ∷ (name_key, text_doc (97 ∷ 46 ∷ 98 ∷ []))
      ∷ (rotate_key, text_doc (72 ∷ 79 ∷ 85 ∷ 82 ∷ []))
      ∷ []))

abbrev pub doc : Doc
doc = object_doc (members_of ((name_key, text_doc (116 ∷ [])) ∷ (log_key, log_doc) ∷ []))

abbrev pub info : LogInfo
info = record { level = warn; path = 108 ∷ []; name = 97 ∷ 46 ∷ 98 ∷ []; rotate_type = rotate_hour }

abbrev pub config : Config
config = record { name = 116 ∷ []; cpu_start = 0; threads_nums = 1; log_info = some info }

pub load-doc : (m : ConfigMgr) → load json (some doc) m ≡ (ok true, record { config = some config })
unfolding load load_config parse_log_info setting read_level read_rotate level_named rotate_named
    same
load-doc m = refl

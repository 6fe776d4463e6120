-- ===== src/Config/Examples.antt =====
-- Runs of `LoadConfig` of src/base/Config.cpp and an example of its theorem.
use tmms.Common.{json_error, ◌≡◌, refl, some, [], ◌∷◌, fault}
use tmms.StringUtils.{same}
use tmms.Config.{new_config, name_key, ConfigMgr, setting, load_config, load}
use tmms.Config.Documents.{Doc, json, doc, config, load-doc, int_doc, object_doc, members_of}
use tmms.Config.Settings.{Describes}
use tmms.Config.Loading.{load-Describes}

abbrev old : ConfigMgr
old = record { config = some (record new_config { cpu_start = 5 }) }

-- A number where a text should stand.
wrong_kind :
    load json (some (object_doc (members_of ((name_key, int_doc 3) ∷ [])))) old
    ≡ (fault json_error, old)
unfolding load load_config setting same
wrong_kind = refl

load-Describes_example : (root : Doc) × (some doc ≡ some root) × Describes json root config
load-Describes_example = (load-Describes json (some doc) old config).0.0 (load-doc old)

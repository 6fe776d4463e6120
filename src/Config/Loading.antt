-- ===== src/Config/Loading.antt =====
-- `LoadConfig` of src/base/Config.cpp against what the document says, as Settings states it.
use tmms.Common.{
  ℕ, ◌≡◌, refl, sym, ap, ◌∙◌, subst, ◌↔◌, ◌⊎◌, inl, inr, Bool, true, false, Option, none, some,
  List, [], Result, ok, fault,
}
use tmms.Config.{
  Json, LogInfo, Config, new_config, name_key, cpu_start_key, threads_key, log_key, path_key,
  ConfigMgr, parse_log_info, load_config, loaded, load,
}
use tmms.Config.Names.{name_text, cpu_start_text, threads_text, log_text, path_text}
use tmms.Config.Settings.{
  ok-bind, bind-ok, Given, ReadsText, ReadsInt, ReadsLog, Describes, level_of, text_of, rotate_of,
  int_of, log_of, level_of-Given, text_of-Given, rotate_of-Given, int_of-Given, setting-Given,
}

module _ (J : Json) where
  open J use {Value}

  parse_log_info-ReadsLog :
      (v : Value) (x : Option LogInfo) → parse_log_info J v ≡ ok x ↔ ReadsLog J v x
  unfolding parse_log_info ReadsLog
  parse_log_info-ReadsLog v x = (there, back)
    where
      there : parse_log_info J v ≡ ok x → ReadsLog J v x
      there h =
          let (l, el, h1) = ok-bind (level_of J v) _ x h in
          let (p, ep, h2) = ok-bind (text_of J path_key v) _ x h1 in
          let (n, en, h3) = ok-bind (text_of J name_key v) _ x h2 in
          let (r, er, h4) = ok-bind (rotate_of J v) _ x h3 in
          (
            record { level = l; path = p; name = n; rotate_type = r },
            cc,
            (level_of-Given J v l).0 el,
            (text_of-Given J path_key path_text v p refl).0 ep,
            (text_of-Given J name_key name_text v n refl).0 en,
            (rotate_of-Given J v r).0 er,
          )

      back : ReadsLog J v x → parse_log_info J v ≡ ok x
      back (i, e, gl, gp, gn, gr) =
          bind-ok (level_of J v) _ i.level ((level_of-Given J v i.level).1 gl)
          ∙ bind-ok (text_of J path_key v) _ i.path
              ((text_of-Given J path_key path_text v i.path refl).1 gp)
          ∙ bind-ok (text_of J name_key v) _ i.name
              ((text_of-Given J name_key name_text v i.name refl).1 gn)
          ∙ bind-ok (rotate_of J v) _ i.rotate_type ((rotate_of-Given J v i.rotate_type).1 gr)
          ∙ ap ok (sym e)

  log_of-Given :
      (v : Value) (x : Option LogInfo) → log_of J v ≡ ok x ↔ Given J log_text (ReadsLog J) none v x
  log_of-Given v x =
      setting-Given J log_key log_text (parse_log_info J) (ReadsLog J) refl parse_log_info-ReadsLog
        none v x

  abbrev stored : Config → Result (Bool × Config)
  stored c = ok (true, c)

  load_config-Describes :
      (root : Value) (c : Config)
      → load_config J (some root) new_config ≡ ok (true, c) ↔ Describes J root c
  unfolding load_config Describes
  load_config-Describes root c = (there, back)
    where
      fields :
          (n : List ℕ) (s t : ℕ) (l : Option LogInfo)
          → stored (record { name = n; cpu_start = s; threads_nums = t; log_info = l }) ≡ stored c
          → Given J name_text (ReadsText J) [] root n
          → Given J cpu_start_text (ReadsInt J) 0 root s
          → Given J threads_text (ReadsInt J) 1 root t
          → Given J log_text (ReadsLog J) none root l
          → Describes J root c
      fields n s t l h gn gs gt gl =
          let same : record { name = n; cpu_start = s; threads_nums = t; log_info = l } ≡ c = cc in
          subst (Describes J root) same (gn, gs, gt, gl)

      there : load_config J (some root) new_config ≡ ok (true, c) → Describes J root c
      there h =
          let (n, en, h1) = ok-bind (text_of J name_key root) _ (true, c) h in
          let (s, es, h2) = ok-bind (int_of J cpu_start_key 0 root) _ (true, c) h1 in
          let (t, et, h3) = ok-bind (int_of J threads_key 1 root) _ (true, c) h2 in
          let (l, el, h4) = ok-bind (log_of J root) _ (true, c) h3 in
          fields n s t l h4 ((text_of-Given J name_key name_text root n refl).0 en)
            ((int_of-Given J cpu_start_key cpu_start_text 0 root s refl).0 es)
            ((int_of-Given J threads_key threads_text 1 root t refl).0 et)
            ((log_of-Given root l).0 el)

      back : Describes J root c → load_config J (some root) new_config ≡ ok (true, c)
      back (gn, gs, gt, gl) =
          bind-ok (text_of J name_key root) _ c.name
            ((text_of-Given J name_key name_text root c.name refl).1 gn)
          ∙ bind-ok (int_of J cpu_start_key 0 root) _ c.cpu_start
              ((int_of-Given J cpu_start_key cpu_start_text 0 root c.cpu_start refl).1 gs)
          ∙ bind-ok (int_of J threads_key 1 root) _ c.threads_nums
              ((int_of-Given J threads_key threads_text 1 root c.threads_nums refl).1 gt)
          ∙ bind-ok (log_of J root) _ c.log_info ((log_of-Given root c.log_info).1 gl)

  loaded-cases :
      (r : Result (Bool × Config)) (m : ConfigMgr) (c : Config)
      → (loaded J r m ≡ (ok true, record { config = some c }) ↔ r ≡ ok (true, c))
        × (((loaded J r m).0 ≡ ok true) ⊎ ((loaded J r m).1 ≡ m))
  loaded-cases (fault e) m c = ((λ h. absurd cc, λ h. absurd cc), inr refl)
  loaded-cases (ok (false, d)) m c = ((λ h. absurd cc, λ h. absurd cc), inr refl)
  loaded-cases (ok (true, d)) m c = ((λ h. ap (λ x. ok (true, x)) cc, λ h. cc), inl refl)

  -- `ConfigMgr::LoadConfig` returns true and stores `c` exactly if the file can be parsed and `c` is
  -- what it says: every key that the document has, if it is not null, with its value, and the default
  -- for the others, whatever configuration was there before. A level that has no name of the five is
  -- the lowest, a rotation that has none of the three is none. Unless `LoadConfig` returns true, also if
  -- it throws because a value is of the wrong kind, the configuration that was there before stays.
  pub load-Describes :
      (parsed : Option Value) (m : ConfigMgr) (c : Config)
      → (load J parsed m ≡ (ok true, record { config = some c })
          ↔ ((root : Value) × (parsed ≡ some root) × Describes J root c))
        × (((load J parsed m).0 ≡ ok true) ⊎ ((load J parsed m).1 ≡ m))
  unfolding load load_config
  load-Describes none m c = ((λ h. absurd cc, λ (root, e, d). absurd cc), inr refl)
  load-Describes (some root) m c =
      let (stores, keeps) = loaded-cases (load_config J (some root) new_config) m c in
      (
        (
          λ h. (root, refl, (load_config-Describes root c).0 (stores.0 h)),
          λ (r, e, d). stores.1 ((load_config-Describes root c).1 (same_root r e d)),
        ),
        keeps,
      )
    where
      same_root : (r : Value) → some root ≡ some r → Describes J r c → Describes J root c
      same_root r e d = let same : r ≡ root = cc (e) in subst (λ r. Describes J r c) same d

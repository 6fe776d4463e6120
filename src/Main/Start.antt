-- ===== src/Main/Start.antt =====
-- When and how src/main/main.cpp comes to its loop, and what the loop does to the log.
use tmms.Common.{
  ℕ, ◌≡◌, refl, sym, ap, ◌∙◌, subst, ◌↔◌, Bool, true, false, Option, none, some, List, [], ◌∷◌,
  ◌++◌, if◌then◌else◌, Result, ok, fault,
}
use tmms.StringUtils.{same}
use tmms.FileLog.{FileSystem, FileLog, rotate_none, new_log, set_rotate, open_log, opened}
use tmms.FileMgr.{Stamp, FileMgr, find_log, get_file_log, added, on_check, set_rotate_of}
use tmms.FileMgr.Never.{Fixed, on_check-Fixed}
use tmms.Logger.{Logger, set_log_level}
use tmms.Config.{Json, LogInfo, Config, ConfigMgr, load}
use tmms.Config.Settings.{Describes}
use tmms.Config.Loading.{load-Describes}
use tmms.Main.{running, new_mgr, with_log, with_info, with_config, with_loaded, start, main_loop}

-- The log under the path with the name put directly behind it, and without rotation.
abbrev pub log_of : LogInfo → ℕ → FileLog
log_of i fd = record { fd = some fd; file_path = i.path ++ i.name; rotate_type = rotate_none }

abbrev pub logger_of : LogInfo → ℕ → Logger
logger_of i fd = record { level = i.level; log = some (log_of i fd) }

abbrev pub mgr_of : LogInfo → ℕ → FileMgr
mgr_of i fd = record { logs = log_of i fd ∷ []; last = none }

module _ (J : Json) (F : FileSystem) where
  unfoldable pub Opens : LogInfo → F.State → Logger → FileMgr → F.State → Type 0
  Opens i s g m s' =
      (fd : ℕ) × (F.open_append (i.path ++ i.name) s ≡ (some fd, s'))
      × (g ≡ logger_of i fd)
      × (m ≡ mgr_of i fd)

  either_way : (b : Bool) (l : FileLog) → (if b then l else l) ≡ l
  either_way true l = refl
  either_way false l = refl

  with_log-some :
      (i : LogInfo) (fd : ℕ) (t : F.State)
      → with_log J F i (added F new_mgr (opened F (i.path ++ i.name) new_log (some fd, t)))
        ≡ running (logger_of i fd) (mgr_of i fd) t
  unfolding set_log_level set_rotate set_rotate_of
  with_log-some i fd t =
      ap (λ l. running (logger_of i fd) (record { logs = l ∷ []; last = none }) t)
        (either_way (same (i.path ++ i.name) (i.path ++ i.name)) (log_of i fd))

  abbrev answer : ℕ → F.State → Option ℕ × F.State
  answer fd s = (some fd, s)

  with_log-opened :
      (i : LogInfo) (q : Option ℕ × F.State) (g : Logger) (m : FileMgr) (s' : F.State)
      → with_log J F i (added F new_mgr (opened F (i.path ++ i.name) new_log q)) ≡ running g m s'
        ↔ ((fd : ℕ) × (q ≡ (some fd, s')) × (g ≡ logger_of i fd) × (m ≡ mgr_of i fd))
  with_log-opened i (none, t) g m s' = (λ h. absurd cc, λ (fd, e, eg, em). absurd cc)
  with_log-opened i (some fd, t) g m s' = (
    λ h. there (sym (with_log-some i fd t) ∙ h),
    λ (n, e, eg, em). with_log-some i fd t ∙ back n e eg em,
  )
    where
      there :
          running (logger_of i fd) (mgr_of i fd) t ≡ running g m s'
          → (n : ℕ) × (answer fd t ≡ answer n s') × (g ≡ logger_of i n) × (m ≡ mgr_of i n)
      there h = (fd, cc, cc, cc)

      back :
          (n : ℕ)
          → answer fd t ≡ answer n s'
          → g ≡ logger_of i n
          → m ≡ mgr_of i n
          → running (logger_of i fd) (mgr_of i fd) t ≡ running g m s'
      back n e eg em = cc

  with_info-Opens :
      (i : LogInfo) (s : F.State) (g : Logger) (m : FileMgr) (s' : F.State)
      → with_info J F (some i) s ≡ running g m s' ↔ Opens i s g m s'
  unfolding Opens get_file_log open_log find_log
  with_info-Opens i s g m s' = with_log-opened i (F.open_append (i.path ++ i.name) s) g m s'

  -- The server comes to its loop.
  unfoldable pub Runs : Option J.Value → F.State → Logger → FileMgr → F.State → Type 0
  Runs parsed s g m s' =
      (root : J.Value) × (c : Config) × (i : LogInfo) × (parsed ≡ some root)
      × Describes J root c
      × (c.log_info ≡ some i)
      × Opens i s g m s'

  with_config-running :
      (o : Option Config) (s : F.State) (g : Logger) (m : FileMgr) (s' : F.State)
      → with_config J F o s ≡ running g m s'
      → (c : Config) × (i : LogInfo) × (o ≡ some c) × (c.log_info ≡ some i) × Opens i s g m s'
  unfolding with_info
  with_config-running none s g m s' h = absurd cc
  with_config-running (some c) s g m s' h = informed c.log_info refl h
    where
      informed :
          (o : Option LogInfo)
          → c.log_info ≡ o
          → with_info J F o s ≡ running g m s'
          → (d : Config) × (i : LogInfo) × (some c ≡ some d)
            × (d.log_info ≡ some i)
            × Opens i s g m s'
      informed none e h = absurd cc
      informed (some i) e h = (c, i, refl, e, (with_info-Opens i s g m s').0 h)

  with_loaded-running :
      (q : Result Bool × ConfigMgr) (s : F.State) (g : Logger) (m : FileMgr) (s' : F.State)
      → with_loaded J F q s ≡ running g m s'
      → (c : Config) × (i : LogInfo) × (q ≡ (ok true, record { config = some c }))
        × (c.log_info ≡ some i)
        × Opens i s g m s'
  with_loaded-running (fault e, n) s g m s' h = absurd cc
  with_loaded-running (ok false, n) s g m s' h = absurd cc
  with_loaded-running (ok true, n) s g m s' h =
      let (c, i, e, f, opens) = with_config-running n.config s g m s' h in
      (c, i, ap (λ o. (ok true, record { config = o })) e, f, opens)

  running-Runs :
      (parsed : Option J.Value) (s : F.State) (g : Logger) (m : FileMgr) (s' : F.State)
      → start J F parsed s ≡ running g m s' ↔ Runs parsed s g m s'
  unfolding start Runs
  running-Runs parsed s g m s' = (there, back)
    where
      there : start J F parsed s ≡ running g m s' → Runs parsed s g m s'
      there h =
          let empty : ConfigMgr = record { config = none } in
          let (c, i, e, f, opens) = with_loaded-running (load J parsed empty) s g m s' h in
          let (root, read, described) = (load-Describes J parsed empty c).0.0 e in
          (root, c, i, read, described, f, opens)

      back : Runs parsed s g m s' → start J F parsed s ≡ running g m s'
      back (root, c, i, read, described, f, opens) =
          let empty : ConfigMgr = record { config = none } in
          ap (λ q. with_loaded J F q s)
            ((load-Describes J parsed empty c).0.1 (root, read, described))
          ∙ ap (λ o. with_info J F o s) f
          ∙ (with_info-Opens i s g m s').1 opens

  pub main_loop_lem :
      (times : List Stamp) (m : FileMgr) (s : F.State)
      → Fixed m.logs
      → (main_loop J F times m s).1 ≡ s
  unfolding main_loop
  main_loop_lem [] m s fixed = refl
  main_loop_lem (now ∷ times) m s fixed =
      let (fixed', same) = on_check-Fixed F now m s fixed in
      main_loop_lem times (on_check F now m s).0 (on_check F now m s).1 fixed' ∙ same

  Runs-Fixed :
      (parsed : Option J.Value) (s : F.State) (g : Logger) (m : FileMgr) (s' : F.State)
      → Runs parsed s g m s'
      → Fixed m.logs
  unfolding Runs Opens
  Runs-Fixed parsed s g m s' (root, c, i, read, described, f, opens) =
      let (fd, e, eg, em) = opens in subst (λ n. Fixed n.logs) (sym em) (refl, _)

  -- The server comes to its loop exactly if the file can be parsed, the configuration that it describes
  -- has a log, and a log file can be opened for appending under the path with the name put directly
  -- behind it. The logger then has the level of the configuration and this file, which is the only
  -- log of the manager. Whatever rotation the configuration asks for, and at whatever times the loop
  -- runs, it changes no file.
  pub start_lem :
      (parsed : Option J.Value) (s : F.State) (g : Logger) (m : FileMgr) (s' : F.State)
      (times : List Stamp)
      → start J F parsed s ≡ running g m s'
        ↔ (Runs parsed s g m s' × ((main_loop J F times m s').1 ≡ s'))
  start_lem parsed s g m s' times = (
    λ h.
        let runs = (running-Runs parsed s g m s').0 h in
        (runs, main_loop_lem times m s' (Runs-Fixed parsed s g m s' runs)),
    λ (runs, unchanged). (running-Runs parsed s g m s').1 runs,
  )

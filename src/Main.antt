-- ===== src/Main.antt =====
-- src/main/main.cpp: how the server starts, and its loop. JsonCpp, the parsed file and the file system
-- are arguments. The task that `main` adds is left out: nothing calls `OnWork`, which would run it.
pub mod Start
mod Examples
use tmms.Common.{Bool, true, false, Option, none, some, List, [], ◌∷◌, ◌++◌, Result, ok, fault}
use tmms.FileLog.{FileSystem, FileLog, set_rotate}
use tmms.FileMgr.{Stamp, FileMgr, on_check, get_file_log, set_rotate_of}
use tmms.Logger.{Logger, new_logger, set_log_level}
use tmms.Config.{Json, LogInfo, Config, ConfigMgr, load}

-- `main` has returned -1, has ended by an exception, or is at its loop, with `g_logger` and the
-- manager of the logs.
pub data Started {ℓ} (S : Type ℓ) : Type ℓ where
  exited terminated : S → Started S
  running : Logger → FileMgr → S → Started S

abbrev pub new_mgr : FileMgr
new_mgr = record { logs = []; last = none }

module _ (J : Json) (F : FileSystem) where
  -- After `GetFileLog`.
  abbrev pub with_log : LogInfo → (FileMgr × Option FileLog) × F.State → Started F.State
  with_log i ((m, none), s) = exited s
  with_log i ((m, some log), s) =
      running (set_log_level i.level (new_logger (some (set_rotate i.rotate_type log))))
        (record m { logs = set_rotate_of log.file_path i.rotate_type m.logs }) s

  -- After `GetLogInfo`.
  abbrev pub with_info : Option LogInfo → F.State → Started F.State
  unfolding get_file_log
  with_info none s = exited s
  with_info (some i) s = with_log i (get_file_log F (i.path ++ i.name) new_mgr s)

  -- After `GetConfig`.
  abbrev pub with_config : Option Config → F.State → Started F.State
  with_config none s = exited s
  with_config (some c) s = with_info c.log_info s

  -- After `LoadConfig`.
  abbrev pub with_loaded : Result Bool × ConfigMgr → F.State → Started F.State
  with_loaded (fault e, m) s = terminated s
  with_loaded (ok false, m) s = exited s
  with_loaded (ok true, m) s = with_config m.config s

  pub start : Option J.Value → F.State → Started F.State
  unfolding load
  start parsed s = with_loaded (load J parsed (record { config = none })) s

  -- The loop, with the times at which it runs.
  pub main_loop : List Stamp → FileMgr → F.State → FileMgr × F.State
  main_loop [] m s = (m, s)
  main_loop (now ∷ times) m s = let (m', s') = on_check F now m s in main_loop times m' s'

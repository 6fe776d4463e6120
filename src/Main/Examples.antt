-- ===== src/Main/Examples.antt =====
-- A start of the server and an example of its theorem.
use tmms.Common.{◌≡◌, refl, none, some, [], ◌∷◌}
use tmms.FileLog.Disk.{Disk, memory}
use tmms.FileMgr.{Stamp}
use tmms.Config.Documents.{json, doc, info, config, load-doc}
use tmms.Config.Loading.{load-Describes}
use tmms.Main.{running, start}
use tmms.Main.Start.{Runs, Opens, logger_of, mgr_of, main_loop_lem, start_lem}

abbrev disk : Disk
disk = record { names = λ p. none; fds = λ g. none; next_inode = 1; next_fd = 3 }

-- The log is opened as "la.b".
abbrev opened : Disk
opened = (memory.open_append (108 ∷ 97 ∷ 46 ∷ 98 ∷ []) disk).1

doc-Runs : Runs json memory (some doc) disk (logger_of info 3) (mgr_of info 3) opened
unfolding Runs Opens
doc-Runs =
    let (root, read, described) =
      (load-Describes json (some doc) (record { config = none }) config).0.0
        (load-doc (record { config = none })) in
    (root, config, info, read, described, refl, (3, refl, refl, refl))

abbrev midnight : Stamp
midnight = record { year = 2026; month = 1; day = 1; hour = 0; minute = 0 }

abbrev noon : Stamp
noon = record midnight { hour = 12 }

start_lem_example :
    start json memory (some doc) disk ≡ running (logger_of info 3) (mgr_of info 3) opened
start_lem_example =
    (start_lem json memory (some doc) disk (logger_of info 3) (mgr_of info 3) opened
        (midnight ∷ noon ∷ [])).1
      (doc-Runs, main_loop_lem json memory (midnight ∷ noon ∷ []) (mgr_of info 3) opened (refl, _))

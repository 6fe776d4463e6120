-- ===== src/Logger.antt =====
-- src/base/Logger.cpp, LogStream.h, LogStream.cpp and `ISOTime` of TTime.cpp, and the macros of
-- src/network/base/Network.h. The clock, the thread's number and the place in the source are
-- arguments. Without a log file the lines go to the console, newest first.
pub mod Lines
mod Examples
use tmms.Common.{
  ℕ, ◌+◌, Bool, true, Option, none, some, List, [], ◌∷◌, ◌++◌, drop, leb, ◌==◌, if◌then◌else◌,
}
use tmms.StringUtils.{slash, find_last_of}
use tmms.InetAddress.{to_string}
use tmms.FileLog.{FileSystem, FileLog, write_log}
use tmms.FileMgr.{padded}

pub data LogLevel : Type 0 where
  trace debug info warn error : LogLevel

abbrev pub rank : LogLevel → ℕ
rank trace = 0
rank debug = 1
rank info = 2
rank warn = 3
rank error = 4

pub record Logger : Type 0 where
  pub level : LogLevel
  pub log : Option FileLog

abbrev pub new_logger : Option FileLog → Logger
new_logger log = record { level = debug; log = log }

unfoldable pub set_log_level : LogLevel → Logger → Logger
set_log_level level g = record g { level = level }

-- What `localtime_r` gives.
pub record LocalTime : Type 0 where
  pub year : ℕ
  pub month : ℕ
  pub day : ℕ
  pub hour : ℕ
  pub minute : ℕ
  pub second : ℕ

-- "%4d-%02d-%02dT%02d:%02d:%02d".
pub iso_time : LocalTime → List ℕ
iso_time t =
    padded 32 4 t.year
    ++ (45 ∷ padded 48 2 t.month)
    ++ (45 ∷ padded 48 2 t.day)
    ++ (84 ∷ padded 48 2 t.hour)
    ++ (58 ∷ padded 48 2 t.minute)
    ++ (58 ∷ padded 48 2 t.second)

-- `strrchr(file, '/')`, and the name behind it.
pub base_name : List ℕ → List ℕ
unfolding find_last_of
base_name file = elim (find_last_of (λ c. c == slash) file) [
  | none ↦ file
  | some pos ↦ drop (pos + 1) file
]

abbrev pub log_string : LogLevel → List ℕ
log_string trace = 32 ∷ 84 ∷ 82 ∷ 65 ∷ 67 ∷ 69 ∷ 32 ∷ []
log_string debug = 32 ∷ 68 ∷ 69 ∷ 66 ∷ 85 ∷ 71 ∷ 32 ∷ []
log_string info = 32 ∷ 73 ∷ 78 ∷ 70 ∷ 79 ∷ 32 ∷ []
log_string warn = 32 ∷ 87 ∷ 65 ∷ 82 ∷ 78 ∷ 32 ∷ []
log_string error = 32 ∷ 69 ∷ 82 ∷ 82 ∷ 79 ∷ 82 ∷ 32 ∷ []

-- `__FILE__`, `__LINE__` and `__func__`.
pub record Place : Type 0 where
  pub file : List ℕ
  pub line : ℕ
  pub func : List ℕ

-- "[func() ]".
abbrev pub func_text : Option (List ℕ) → List ℕ
func_text none = []
func_text (some func) = (91 ∷ func) ++ (40 ∷ 41 ∷ 32 ∷ 93 ∷ [])

-- What the constructor of `LogStream` puts into the stream.
pub line_start : LocalTime → ℕ → LogLevel → Place → Option (List ℕ) → List ℕ
unfolding iso_time base_name
line_start now thread_id l at func =
    let end = (91 ∷ base_name at.file) ++ (58 ∷ (to_string at.line ++ (93 ∷ func_text func))) in
    iso_time now ++ (to_string thread_id ++ (log_string l ++ end))

-- The macros `NET_LOG_*` and `NETWORK_LOG_*` of a level.
pub data Macro : Type 0 where
  net_log network_log : LogLevel → Macro

abbrev pub level_of : Macro → LogLevel
level_of (net_log l) = l
level_of (network_log l) = l

-- The condition, for a logger that is there. `NET_LOG_WARN` has none.
abbrev pub passes : Macro → LogLevel → Bool
passes (net_log warn) level = true
passes (net_log l) level = leb (rank level) (rank l)
passes (network_log l) level = true

-- Which macros hand over `__func__`.
abbrev pub function_of : Macro → Place → Option (List ℕ)
function_of (net_log trace) at = some at.func
function_of (net_log debug) at = some at.func
function_of (net_log l) at = none
function_of (network_log l) at = some at.func

-- The line that a statement makes, which the destructor ends.
pub log_line : LocalTime → ℕ → Macro → Place → List ℕ → List ℕ
unfolding line_start
log_line now thread_id m at msg =
    line_start now thread_id (level_of m) at (function_of m at) ++ (msg ++ (10 ∷ []))

module _ (F : FileSystem) where
  -- `Write`.
  pub write : Logger → List ℕ → List (List ℕ) × F.State → List (List ℕ) × F.State
  write g msg (console, s) = elim g.log [
    | none ↦ (msg ∷ console, s)
    | some log ↦ (console, write_log F msg log s)
  ]

  -- A statement with one of the macros; `g_logger` is an argument.
  pub statement :
      Option Logger
      → LocalTime
      → ℕ
      → Macro
      → Place
      → List ℕ
      → List (List ℕ) × F.State
      → List (List ℕ) × F.State
  unfolding write log_line
  statement none now thread_id m at msg sink = sink
  statement (some g) now thread_id m at msg sink =
      if passes m g.level then write g (log_line now thread_id m at msg) sink else sink

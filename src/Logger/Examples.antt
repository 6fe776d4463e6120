-- ===== src/Logger/Examples.antt =====
-- Runs of statements of src/base/LogStream.h and an example of the theorem on lines.
use tmms.Common.{◌≡◌, refl, none, some, [], ◌∷◌, arith, drop}
use tmms.InetAddress.{value}
use tmms.StringUtils.{find_last_of}
use tmms.FileLog.Disk.{Disk, memory}
use tmms.Logger.{
  info, warn, error, trace, Logger, new_logger, set_log_level, LocalTime, base_name, Place, net_log,
  network_log, log_line, write, statement,
}
use tmms.Logger.Lines.{IsTime, read_iso_time, read-log_line}

abbrev now : LocalTime
now = record { year = 2026; month = 3; day = 9; hour = 7; minute = 5; second = 59 }

now-IsTime : IsTime now
now-IsTime = record {
  year_from = omega arith;
  year_to = omega arith;
  month_to = omega arith;
  day_to = omega arith;
  hour_to = omega arith;
  minute_to = omega arith;
  second_to = omega arith;
}

-- `a/b.c`.
abbrev place : Place
place = record { file = 97 ∷ 47 ∷ 98 ∷ 46 ∷ 99 ∷ []; line = 12; func = 102 ∷ [] }

named : base_name place.file ≡ 98 ∷ 46 ∷ 99 ∷ []
unfolding base_name find_last_of
named = refl

abbrev disk : Disk
disk = record { names = λ p. none; fds = λ g. none; next_inode = 1; next_fd = 3 }

-- A console logger at the level of errors drops an info, and writes a warning and whatever the
-- network macros log.
abbrev errors_only : Logger
errors_only = set_log_level error (new_logger none)

dropped : statement memory (some errors_only) now 7 (net_log info) place [] ([], disk) ≡ ([], disk)
unfolding statement set_log_level
dropped = refl

warned :
    statement memory (some errors_only) now 7 (net_log warn) place [] ([], disk)
    ≡ (log_line now 7 (net_log warn) place [] ∷ [], disk)
unfolding statement write set_log_level
warned = refl

traced :
    statement memory (some errors_only) now 7 (network_log trace) place [] ([], disk)
    ≡ (log_line now 7 (network_log trace) place [] ∷ [], disk)
unfolding statement write set_log_level
traced = refl

read-log_line_example :
    let line = log_line now 12345 (net_log warn) place (104 ∷ 105 ∷ []) in
    (read_iso_time line ≡ now) × (value 0 (drop 19 line) ≡ 12345)
read-log_line_example = read-log_line now 12345 (net_log warn) place (104 ∷ 105 ∷ []) now-IsTime

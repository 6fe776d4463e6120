-- ===== src/IdleTimeout.antt =====
-- The idle timeout of src/network/net/TcpConnection.cpp with the wheel of TimingWheel. The entry of
-- the connection is an object at an address, to which only the wheel has strong references; when the
-- wheel destroys it, its destructor calls `OnTimeout`. All calls are in the loop thread.
pub mod Closes
mod Examples
use tmms.Common.{ℕ, zero, suc, some, List, [], ◌∷◌, ◌==◌, if◌then◌else◌}
use tmms.TcpConnection.{TcpConnection, on_close}
use tmms.TimingWheel.{TimingWheel, Payload, shared, insert_entry, referred, on_tick}
use tmms.TimingWheel.Shared.{ends}

pub record Timed : Type 0 where
  pub connection : TcpConnection
  pub wheel : TimingWheel
  pub timeout_entry : ℕ
  pub max_idle_time : ℕ

pub enable_check_timeout : ℕ → Timed → Timed
enable_check_timeout max_time s = record s {
  max_idle_time = max_time;
  wheel = insert_entry max_time (some (shared s.timeout_entry)) s.wheel;
}

-- `OnTimeout`.
pub on_timeout : Timed → Timed
on_timeout s = record s { connection = on_close s.connection }

-- `lock` gives the entry as long as the wheel refers to it.
pub extend_life : Timed → Timed
extend_life s =
    if referred s.timeout_entry s.wheel
    then record s { wheel = insert_entry s.max_idle_time (some (shared s.timeout_entry)) s.wheel }
    else s

-- A tick of the wheel, with the destructor of the entry if the wheel destroys it.
pub tick : Timed → Timed
unfolding on_timeout
tick s =
    let s' = record s { wheel = on_tick s.wheel } in
    if ends s.timeout_entry s'.wheel.ran == ends s.timeout_entry s.wheel.ran
    then s'
    else on_timeout s'

pub pass : ℕ → Timed → Timed
unfolding tick
pass zero s = s
pass (suc n) s = pass n (tick s)

-- Signs of life, each after so many ticks.
pub active : List ℕ → Timed → Timed
unfolding pass extend_life
active [] s = s
active (g ∷ gs) s = active gs (extend_life (pass g s))

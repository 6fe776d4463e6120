-- ===== src/LoopRound.antt =====
-- A round of `Loop` of src/network/net/EventLoop.cpp after `epoll_wait` has returned: the reports, the
-- queued functions, the wheel. What a handler of an event does to the loop is a parameter.
pub mod Reports
mod Examples
use tmms.Common.{ℕ, ◌+◌, Option, none, some, List, [], ◌∷◌, ◌++◌, length}
use tmms.EventLoop.{EventLoop, Handler, Ready, dispatch, next_capacity, run_functions}
use tmms.TimingWheel.{TimingWheel, on_timer}

pub record Report : Type 0 where
  pub fd : ℕ
  pub events : Ready

pub record LoopState : Type 0 where
  pub loop : EventLoop
  pub wheel : TimingWheel
  pub capacity : ℕ
  -- The handlers that were called, with the descriptor of the report, oldest first.
  pub handled : List (ℕ × ℕ × Handler)

module _ (handle : ℕ → Handler → EventLoop → EventLoop) where
  abbrev pub run_handler : ℕ → Option (ℕ × Handler) → LoopState → LoopState
  run_handler fd none s = s
  run_handler fd (some (a, h)) s = record s {
    loop = handle a h s.loop;
    handled = s.handled ++ ((fd, a, h) ∷ []);
  }

  -- The `for` loop over the reports.
  unfoldable pub run_reports : List Report → LoopState → LoopState
  run_reports [] s = s
  run_reports (r ∷ rs) s = run_reports rs (run_handler r.fd (dispatch r.fd r.events s.loop) s)

  -- What follows an `epoll_wait` that returns the reports; the clock then reads `now`.
  pub loop_round : List Report → ℕ → LoopState → LoopState
  unfolding run_reports
  loop_round rs now s =
      let s' = run_reports rs s in
      record s' {
        capacity = next_capacity (length rs) s'.capacity;
        loop = run_functions s'.loop;
        wheel = on_timer now s'.wheel;
      }

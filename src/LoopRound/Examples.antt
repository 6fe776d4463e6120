-- ===== src/LoopRound/Examples.antt =====
-- A round of the loop in which a handler removes another event.
use tmms.Common.{ℕ, ◌+◌, ◌-◌, ◌≡◌, refl, true, false, none, some, [], ◌∷◌, ◌==◌, if◌then◌else◌}
use tmms.EventLoop.{EventLoop, Handler, on_read, Ready, dispatch, choose}
use tmms.TimingWheel.{init}
use tmms.LoopRound.{Report, LoopState, run_reports, loop_round}
use tmms.LoopRound.Reports.{calls_of, removed_uncalled}

-- Whoever is called takes descriptor 6 out of the table.
abbrev take_out : ℕ → Handler → EventLoop → EventLoop
take_out a h l = record l { events = λ k. if k == 6 then none else l.events k }

abbrev readable : Ready
readable = record {
  epoll_err = false;
  epoll_hup = false;
  epoll_in = true;
  epoll_pri = false;
  epoll_out = false;
}

abbrev both : LoopState
both = record {
  loop = record {
    events = λ k. some (k + 100);
    objects = λ a. record {
      fd = a - 100;
      event = record { epoll_in = true; epoll_pri = true; epoll_out = false; epoll_et = true };
    };
    calls = [];
    functions = [];
    executed = [];
    wakeups = 0;
    looping = true;
  };
  wheel = init;
  capacity = 1024;
  handled = [];
}

abbrev report : ℕ → Report
report k = record { fd = k; events = readable }

first_run : (run_reports take_out (report 5 ∷ []) both).handled ≡ (5, 105, on_read) ∷ []
unfolding run_reports dispatch choose
first_run = refl

taken_out : (run_reports take_out (report 5 ∷ []) both).loop.events 6 ≡ none
unfolding run_reports dispatch choose
taken_out = refl

removed_uncalled_example :
    calls_of 6 (loop_round take_out (report 5 ∷ report 6 ∷ []) 1000 both).handled
    ≡ calls_of 6 (run_reports take_out (report 5 ∷ []) both).handled
removed_uncalled_example =
    removed_uncalled take_out 6 (report 5 ∷ []) (report 6 ∷ []) 1000 both (λ a h l e. refl)
      taken_out

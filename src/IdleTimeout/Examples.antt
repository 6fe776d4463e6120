-- ===== src/IdleTimeout/Examples.antt =====
-- Runs of the idle timeout and an example of its theorem.
use tmms.Common.{◌≡◌, refl, false, [], ◌∷◌, arith}
use tmms.TcpConnection.{on_close}
use tmms.TimingWheel.{init, referred, refers, refers_any}
use tmms.TimingWheel.Kept.{init-IsValid}
use tmms.IdleTimeout.{Timed, enable_check_timeout, pass, active}
use tmms.IdleTimeout.Closes.{idle_closes}

abbrev fresh : Timed
fresh = record {
  connection = record { closed = false; io_vec_list = []; effects = [] };
  wheel = init;
  timeout_entry = 7;
  max_idle_time = 30;
}

unheld : referred 7 fresh.wheel ≡ false
unfolding init referred refers_any refers
unheld = refl

-- Signs of life after 2 and 1 ticks; then 3 ticks of silence.
idle_closes_example :
    (pass 3 (active (2 ∷ 1 ∷ []) (enable_check_timeout 3 fresh))).connection
    ≡ on_close fresh.connection
idle_closes_example =
    idle_closes 3 3 (2 ∷ 1 ∷ []) fresh init-IsValid unheld (omega arith) (omega arith)
      (omega arith, (omega arith, _))

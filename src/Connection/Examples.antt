-- ===== src/Connection/Examples.antt =====
-- Examples of the theorems on connections.
use tmms.Common.{◌≡◌, refl, true, false, some, []}
use tmms.Connection.{Connection, set_context, get_context, run_functions}
use tmms.Connection.Activation.{activate_all, activations}

abbrev idle : Connection
idle = record { contexts = []; active = false; has_active_cb = true; queued = 0; active_calls = 0 }

stored : get_context 1 (set_context 2 (some 9) (set_context 1 (some 7) idle)) ≡ some 7
unfolding get_context set_context
stored = refl

activations_example :
    let here = activate_all true 3 idle in
    let there = run_functions (activate_all false 3 idle) in
    (here.active_calls ≡ 1)
    × (here.active ≡ true)
    × (there.active_calls ≡ 3)
    × (there.active ≡ true)
activations_example = activations 2 idle refl refl refl

-- ===== src/Connection/Activation.antt =====
-- How often src/network/net/Connection.cpp calls the active callback.
use tmms.Common.{ℕ, zero, suc, ◌+◌, ◌≡◌, refl, ap, ◌∙◌, Bool, true, false, arith}
use tmms.Connection.{Connection, run_active, activate, run_queued, run_functions}

-- So many calls of `Active` in one thread.
pub activate_all : Bool → ℕ → Connection → Connection
unfolding activate
activate_all in_loop_thread zero c = c
activate_all in_loop_thread (suc n) c = activate_all in_loop_thread n (activate in_loop_thread c)

already_active :
    (in_loop_thread : Bool) (n : ℕ) (c : Connection)
    → c.active ≡ true
    → activate_all in_loop_thread n c ≡ c
unfolding activate_all activate
already_active in_loop_thread zero c h = refl
already_active in_loop_thread (suc n) c h =
    ap (activate_all in_loop_thread n) (ground arith) ∙ already_active in_loop_thread n c h

post_all :
    (n : ℕ) (c : Connection)
    → c.active ≡ false
    → activate_all false n c ≡ record c { queued = c.queued + n }
unfolding activate_all activate
post_all zero c h = ground arith
post_all (suc n) c h =
    ap (activate_all false n) posted
    ∙ post_all n (record c { queued = c.queued + 1 }) h
    ∙ ap (λ q. record c { queued = q }) {x = c.queued + 1 + n} (omega arith)
  where
    posted : activate false c ≡ record c { queued = c.queued + 1 }
    posted = ground arith

run_queued_lem :
    (n : ℕ) (c : Connection)
    → c.has_active_cb ≡ true
    → c.queued ≡ n
    → ((run_queued n c).active_calls ≡ c.active_calls + n) × ((run_queued n c).queued ≡ 0)
unfolding run_queued run_active
run_queued_lem zero c h e = (omega arith, e)
run_queued_lem (suc n) c h e =
    let (calls, left) = run_queued_lem n (run_active (record c { queued = n })) h refl in
    (calls ∙ ground arith, left)

run_queued-active : (n : ℕ) (c : Connection) → c.active ≡ true → (run_queued n c).active ≡ true
unfolding run_queued run_active
run_queued-active zero c h = h
run_queued-active (suc n) c h = run_queued-active n (run_active (record c { queued = n })) refl

run_queued-suc : (n : ℕ) (c : Connection) → c.queued ≡ suc n → (run_functions c).active ≡ true
unfolding run_functions run_queued run_active
run_queued-suc n c e =
    ap (λ q. (run_queued q c).active) e
    ∙ run_queued-active n (run_active (record c { queued = n })) refl

run_functions_lem :
    (c : Connection)
    → c.has_active_cb ≡ true
    → (run_functions c).active_calls ≡ c.active_calls + c.queued
unfolding run_functions
run_functions_lem c h = (run_queued_lem c.queued c h refl).0

-- For a connection with an active callback that is not active, and nothing of it in the loop's queue:
-- calls of `Active` in the loop's thread call the callback once, however many they are; calls in
-- other threads call it as often as they were made before the loop came to run them. In both cases
-- the connection is active then, if there was a call.
pub activations :
    (n : ℕ) (c : Connection)
    → c.has_active_cb ≡ true
    → c.active ≡ false
    → c.queued ≡ 0
    → let here = activate_all true (suc n) c in
      let there = run_functions (activate_all false (suc n) c) in
      (here.active_calls ≡ c.active_calls + 1)
      × (here.active ≡ true)
      × (there.active_calls ≡ c.active_calls + suc n)
      × (there.active ≡ true)
unfolding activate_all run_functions activate run_active
activations n c h idle none_queued =
    let once =
      ap (activate_all true n) {y = run_active c} (ground arith)
      ∙ already_active true n (run_active c) refl in
    let queued = post_all (suc n) c idle in
    (
      ap (λ d. d.active_calls) once ∙ ground arith,
      ap (λ d. d.active) once,
      ap (λ d. (run_functions d).active_calls) queued
          ∙ run_functions_lem (record c { queued = c.queued + suc n }) h
          ∙ omega arith,
      ap (λ d. (run_functions d).active) queued
          ∙ run_queued-suc n (record c { queued = c.queued + suc n }) (omega arith),
    )

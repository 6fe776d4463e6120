-- ===== src/Connection.antt =====
-- src/network/net/Connection.cpp: the contexts of a connection, and its activation. A context is the
-- number of its object, a null pointer is `none`. The map is a list without repeated keys. Of the
-- loop's queue, `queued` is the number of calls of `Active` that wait in it.
pub mod Contexts
pub mod Activation
mod Examples
use tmms.Common.{
  ℕ, zero, suc, ◌+◌, Bool, true, false, Option, none, List, [], ◌∷◌, ◌==◌, if◌then◌else◌,
}

pub record Connection : Type 0 where
  pub contexts : List (ℕ × Option ℕ)
  pub active : Bool
  pub has_active_cb : Bool
  pub queued : ℕ
  pub active_calls : ℕ

-- `contexts_[type] = context`.
pub assign : ℕ → Option ℕ → List (ℕ × Option ℕ) → List (ℕ × Option ℕ)
assign type context [] = (type, context) ∷ []
assign type context ((k, c) ∷ rest) =
    let others = assign type context rest in
    if k == type then (k, context) ∷ rest else (k, c) ∷ others

pub find : ℕ → List (ℕ × Option ℕ) → Option ℕ
find type [] = none
find type ((k, c) ∷ rest) = let later = find type rest in if k == type then c else later

unfoldable pub set_context : ℕ → Option ℕ → Connection → Connection
unfolding assign
set_context type context c = record c { contexts = assign type context c.contexts }

unfoldable pub get_context : ℕ → Connection → Option ℕ
unfolding find
get_context type c = find type c.contexts

-- `contexts_[type].reset()`, which makes an entry where there is none.
pub clear_context : ℕ → Connection → Connection
unfolding assign
clear_context type c = record c { contexts = assign type none c.contexts }

pub clear_contexts : Connection → Connection
clear_contexts c = record c { contexts = [] }

-- The function that `Active` hands to the loop.
pub run_active : Connection → Connection
run_active c = record c {
  active = true;
  active_calls = if c.has_active_cb then c.active_calls + 1 else c.active_calls;
}

-- `Active` in the loop's thread or in another one.
pub activate : Bool → Connection → Connection
unfolding run_active
activate in_loop_thread c =
    if c.active
    then c
    else if in_loop_thread
    then run_active c
    else record c { queued = c.queued + 1 }

pub deactivate : Connection → Connection
deactivate c = record c { active = false }

-- The loop runs what waits.
pub run_queued : ℕ → Connection → Connection
unfolding run_active
run_queued zero c = c
run_queued (suc n) c = run_queued n (run_active (record c { queued = n }))

pub run_functions : Connection → Connection
unfolding run_queued
run_functions c = run_queued c.queued c

-- ===== src/EventLoop/Dispatch.antt =====
-- Which handler `Loop` of src/network/net/EventLoop.cpp calls for a ready descriptor.
use tmms.Common.{ℕ, ◌<◌, ◌≡◌, ◌↔◌, true, false, none, some, arith}
use tmms.EventLoop.{EventLoop, Ready, on_write, choose, dispatch}

-- The write handler is called exactly if the descriptor is registered, is writable, and has no
-- error, no hang-up and nothing to read: a descriptor that is readable and writable is only read.
pub dispatch-on_write_iff :
    (fd a : ℕ) (ev : Ready) (l : EventLoop)
    → l.events fd ≡ some a
    → 0 < fd
    → (dispatch fd ev l ≡ some (a, on_write)) ↔ (
        (ev.epoll_err ≡ false)
        × (ev.epoll_hup ≡ false)
        × (ev.epoll_in ≡ false)
        × (ev.epoll_pri ≡ false)
        × (ev.epoll_out ≡ true))
unfolding dispatch choose
dispatch-on_write_iff fd a ev l held pos = (λ h. ground arith, λ h. ground arith)

-- A descriptor that is not registered, as after `DelEvent` in the same round, reaches no handler.
pub dispatch_unregistered :
    (fd : ℕ) (ev : Ready) (l : EventLoop) → l.events fd ≡ none → dispatch fd ev l ≡ none
unfolding dispatch
dispatch_unregistered fd ev l gone = ground arith

-- ===== src/Acceptor/Listens.antt =====
-- The listening socket of src/network/net/Acceptor.cpp.
use tmms.Common.{
  ℕ, ◌≡◌, refl, sym, ◌∙◌, subst, false, Option, none, some, List, [], ◌∷◌, ◌++◌, append-nil,
  append_assoc, arith,
}
use tmms.InetAddress.{InetAddress}
use tmms.SocketOpt.{AddressText, unset, accept}
use tmms.TcpConnection.{eintr, eagain, other}
use tmms.TcpClient.{is_fd, with_fd}
use tmms.Acceptor.{
  Acceptor, open_socket, stop, start, on_close, Accepted, connection, failed, Outcome, running,
  finished, hand_over, accept_loop, on_read,
}

-- The loop has exactly the descriptor of the acceptor, and the options are those of the same socket.
pub record Listens (a : Acceptor) : Type 0 where
  pub same_socket : a.socket_opt ≡ a.fd
  pub only : (k : ℕ) → a.registered k ≡ is_fd k a.fd

-- The loop has no descriptor of the acceptor.
abbrev pub IsStopped : Acceptor → Type 0
IsStopped a = (k : ℕ) → a.registered k ≡ false

stop-IsStopped : (a : Acceptor) → Listens a → IsStopped (stop a)
unfolding stop
stop-IsStopped a h k = ground (arith, h.only k)

open-Listens :
    (sock : ℕ) (a : Acceptor)
    → IsStopped a
    → (a' : Acceptor) × (open_socket (some sock) a ≡ some a')
      × Listens a'
      × (a'.fd ≡ some sock)
      × (a'.accepted ≡ a.accepted)
unfolding open_socket
open-Listens sock a h = (
  record a { fd = some sock; socket_opt = some sock; registered = with_fd sock a.registered },
  refl,
  record { same_socket = refl; only = λ k. ground (arith, h k) },
  refl,
  refl,
)

-- The connections up to the first error, with their peers.
abbrev pub arrivals : AddressText → List Accepted → List (ℕ × InetAddress)
arrivals t [] = []
arrivals t (connection c from ∷ rs) = (c, (accept t (some c) from unset).1) ∷ arrivals t rs
arrivals t (failed e ∷ rs) = []

abbrev pub result : Outcome → Option Acceptor
result (running a) = a
result (finished a) = a

abbrev pub Good : List (ℕ × InetAddress) → Option Acceptor → Type 0
Good cs o = (a : Acceptor) × (o ≡ some a) × Listens a × (a.accepted ≡ cs)

accept_loop-Good :
    (t : AddressText) (sock : ℕ) (rs : List Accepted) (a : Acceptor)
    → Listens a
    → Good (a.accepted ++ arrivals t rs) (result (accept_loop t (some sock) rs a))
unfolding accept_loop on_close start
accept_loop-Good t sock [] a h = (a, refl, h, sym (append-nil a.accepted))
accept_loop-Good t sock (connection c from ∷ rs) a h =
    let (b, e, g, l) =
      accept_loop-Good t sock rs (hand_over t c from a)
        (record { same_socket = h.same_socket; only = h.only }) in
    (
      b,
      e,
      g,
      l ∙ append_assoc a.accepted ((c, (accept t (some c) from unset).1) ∷ []) (arrivals t rs),
    )
accept_loop-Good t sock (failed eintr ∷ rs) a h = (a, refl, h, sym (append-nil a.accepted))
accept_loop-Good t sock (failed eagain ∷ rs) a h = (a, refl, h, sym (append-nil a.accepted))
accept_loop-Good t sock (failed other ∷ rs) a h =
    let (b, e, g, _, l) = open-Listens sock (stop a) (stop-IsStopped a h) in
    (b, e, g, l ∙ sym (append-nil a.accepted))

-- A call of `OnRead` on an acceptor that listens, where `socket` does not fail: it gives the accept
-- callback the connections that the kernel reports before the first error, in order and with their
-- peers' addresses. Afterwards, also where an error made it open a new socket, the loop has exactly
-- the descriptor of the one listening socket.
pub on_read-Listens :
    (t : AddressText) (sock : ℕ) (rs : List Accepted) (a : Acceptor) (fd : ℕ)
    → Listens a
    → a.fd ≡ some fd
    → Good (a.accepted ++ arrivals t rs) (result (on_read t (some sock) rs a))
unfolding on_read
on_read-Listens t sock rs a fd h e =
    subst
      (λ o.
        Good (a.accepted ++ arrivals t rs)
          (result (elim o [ none ↦ finished (some a) | some q ↦ accept_loop t (some sock) rs a ])))
      (sym (h.same_socket ∙ e)) (accept_loop-Good t sock rs a h)

-- `Start` of a new acceptor makes it listen.
pub new-Listens :
    (sock : ℕ)
    → (a : Acceptor) × (start
          (some sock)
          (record { fd = none; socket_opt = none; registered = λ k. false; accepted = [] })
        ≡ some a)
      × Listens a
      × (a.fd ≡ some sock)
unfolding start
new-Listens sock = let (a, e, h, f, _) = open-Listens sock new (λ k. refl) in (a, e, h, f)
  where
    new : Acceptor
    new = record { fd = none; socket_opt = none; registered = λ k. false; accepted = [] }

-- ===== src/TcpServer/Serving.antt =====
-- src/network/TcpServer.cpp with its acceptor, src/network/net/Acceptor.cpp: `Start` sets the accept
-- callback and starts the acceptor, `Stop` stops it. A connection that is accepted is made at an
-- address that the program chooses.
use tmms.Common.{
  ℕ, ◌≡◌, refl, ap, ◌∙◌, ◌≢◌, Bool, true, Option, none, some, List, [], ◌∷◌, arith, length, drop,
  drop-append_past,
}
use tmms.InetAddress.{InetAddress}
use tmms.SocketOpt.{AddressText}
use tmms.Acceptor
use tmms.Acceptor.{Acceptor, Accepted}
use tmms.Acceptor.Listens.{Listens, arrivals, result, on_read-Listens}
use tmms.TcpServer.{TcpServer, on_accept}
use tmms.TcpServer.Connections.{
  IsConsistent, IsNew, events-on_accept, connections-on_accept, has_made-on_accept,
  on_accept-IsConsistent,
}

-- The calls of `OnAccept`, each with the address of the connection and its descriptor.
unfoldable pub accept_all : List (ℕ × ℕ) → TcpServer → TcpServer
accept_all [] s = s
accept_all ((a, fd) ∷ cs) s = accept_all cs (on_accept a fd s)

unfoldable pub Apart : ℕ → ℕ → List (ℕ × ℕ) → Type 0
Apart a fd [] = Unit {0}
Apart a fd ((b, g) ∷ cs) = (b ≢ a) × (g ≢ fd) × Apart a fd cs

-- The descriptors and the addresses are new to the server and to each other.
unfoldable pub AllNew : List (ℕ × ℕ) → TcpServer → Type 0
AllNew [] s = Unit {0}
AllNew ((a, fd) ∷ cs) s = IsNew a fd s × Apart a fd cs × AllNew cs s

IsNew-on_accept :
    (a fd b g : ℕ) (s : TcpServer)
    → IsConsistent s
    → IsNew a fd s
    → b ≢ a
    → g ≢ fd
    → IsNew b g s
    → IsNew b g (on_accept a fd s)
IsNew-on_accept a fd b g s c n other apart m = record {
  free = ground (arith, events-on_accept a fd s c n g, m.free);
  not_made = ground (arith, has_made-on_accept a fd s c n b, m.not_made);
  not_known = λ k e. ground (arith, events-on_accept a fd s c n k, m.not_known k);
}

AllNew-on_accept :
    (a fd : ℕ) (cs : List (ℕ × ℕ)) (s : TcpServer)
    → IsConsistent s
    → IsNew a fd s
    → Apart a fd cs
    → AllNew cs s
    → AllNew cs (on_accept a fd s)
unfolding AllNew Apart
AllNew-on_accept a fd [] s c n x all = _
AllNew-on_accept a fd ((b, g) ∷ cs) s c n (other, apart, x) (m, y, all) =
    (IsNew-on_accept a fd b g s c n other apart m, y, AllNew-on_accept a fd cs s c n x all)

-- The connections, newest first.
pub added : List (ℕ × ℕ) → List ℕ → List ℕ
added [] l = l
added ((a, fd) ∷ cs) l = added cs (a ∷ l)

accept_all-IsConsistent :
    (cs : List (ℕ × ℕ)) (s : TcpServer)
    → IsConsistent s
    → AllNew cs s
    → IsConsistent (accept_all cs s) × ((accept_all cs s).connections ≡ added cs s.connections)
unfolding accept_all AllNew added
accept_all-IsConsistent [] s c all = (c, refl)
accept_all-IsConsistent ((a, fd) ∷ cs) s c (n, x, all) =
    let (kept, same) =
      accept_all-IsConsistent cs (on_accept a fd s) (on_accept-IsConsistent a fd s c n)
        (AllNew-on_accept a fd cs s c n x all) in
    (kept, same ∙ ap (added cs) (connections-on_accept a fd s c n))

-- A server with its acceptor.
pub record Serving : Type 0 where
  pub server : TcpServer
  pub acceptor : Acceptor
  pub has_accept_cb : Bool

-- `Start`; `sock` is what `socket` answers, and `none` means that the acceptor ends the program.
unfoldable pub start : Option ℕ → Serving → Option Serving
start sock s = elim (Acceptor.start sock s.acceptor) [
  | none ↦ none
  | some a ↦ some (record s { acceptor = a; has_accept_cb = true })
]

pub stop : Serving → Serving
stop s = record s { acceptor = Acceptor.stop s.acceptor }

-- The next connections with the addresses at which they are made.
abbrev pub made_at : List ℕ → List (ℕ × InetAddress) → List (ℕ × ℕ)
made_at [] arrived = []
made_at (a ∷ objects) [] = []
made_at (a ∷ objects) ((fd, peer) ∷ arrived) = (a, fd) ∷ made_at objects arrived

-- What `OnRead` of the acceptor makes of a server whose callback is set.
abbrev pub handed : List ℕ → Serving → Option Acceptor → Option Serving
handed objects s none = none
handed objects s (some a) = some (record s {
  acceptor = a;
  server = accept_all (made_at objects (drop (length s.acceptor.accepted) a.accepted)) s.server;
})

unfoldable pub read : AddressText → Option ℕ → List Accepted → List ℕ → Serving → Option Serving
read t sock rs objects s = handed objects s (result (Acceptor.on_read t sock rs s.acceptor))

-- A server whose acceptor listens, where `socket` does not fail and the descriptors and addresses are
-- new: after `OnRead` of the acceptor the server's set has the connections that the kernel reported
-- before the first error, in front of those it had, each registered in the loop, and the acceptor
-- listens.
pub read_lem :
    (t : AddressText) (sock fd : ℕ) (rs : List Accepted) (objects : List ℕ) (s : Serving)
    → Listens s.acceptor
    → s.acceptor.fd ≡ some fd
    → IsConsistent s.server
    → AllNew (made_at objects (arrivals t rs)) s.server
    → (u : Serving) × (read t (some sock) rs objects s ≡ some u)
      × Listens u.acceptor
      × IsConsistent u.server
      × (u.server.connections ≡ added (made_at objects (arrivals t rs)) s.server.connections)
unfolding read
read_lem t sock fd rs objects s h e c new =
    let (a, done, listens, all) = on_read-Listens t sock rs s.acceptor fd h e in
    let fresh : drop (length s.acceptor.accepted) a.accepted ≡ arrivals t rs =
      ap (drop (length s.acceptor.accepted)) all
      ∙ drop-append_past (length s.acceptor.accepted) s.acceptor.accepted (arrivals t rs)
          (omega arith)
      ∙ ap (λ k. drop k (arrivals t rs)) {y = 0} (omega arith) in
    let (kept, connections) =
      accept_all-IsConsistent (made_at objects (arrivals t rs)) s.server c new in
    (
      record s { acceptor = a; server = accept_all (made_at objects (arrivals t rs)) s.server },
      ap (handed objects s) done
          ∙ ap
              (λ x.
                some (record s { acceptor = a; server = accept_all (made_at objects x) s.server }))
              fresh,
      listens,
      kept,
      connections,
    )

-- ===== src/SocketOpt/RoundTrip.antt =====
-- From a socket address to an `InetAddress` and back, in src/network/base/SocketOpt.cpp and
-- src/network/base/InetAddress.cpp.
use tmms.Common.{ℕ, ◌^◌, ◌<◌, ◌≡◌, ap, ap₂, true, some, arith, lt→ltb}
use tmms.InetAddress.{to_string, set_addr, set_port, set_is_ipv6}
use tmms.InetAddress.Ports.{number_text}
use tmms.SocketOpt.{
  AddressText, SockAddr, inet4, inet6, other_family, unset, atoi_port, or_zero, to_inet_address,
  accept, get_peer_address, get_sock_addr,
}

-- Addresses, ports, flow information and scopes within their widths.
abbrev pub InWidth : SockAddr → Type 0
InWidth (inet4 n p) = (n < 2 ^ 32) × (p < 2 ^ 16)
InWidth (inet6 n p flow scope) = (n < 2 ^ 128) × (p < 2 ^ 16) × (flow < 2 ^ 32) × (scope < 2 ^ 32)
InWidth other_family = ⊥

-- The address of the same host and port without flow information and scope.
abbrev pub without_scope : SockAddr → SockAddr
without_scope (inet4 n p) = inet4 n p
without_scope (inet6 n p flow scope) = inet6 n p 0 0
without_scope other_family = other_family

atoi_port-to_string : (p : ℕ) → p < 2 ^ 16 → atoi_port (to_string p) ≡ p
unfolding atoi_port
atoi_port-to_string p h = let (plain, same) = number_text p in simp (plain, same) (omega arith)

module _ (t : AddressText) (n p : ℕ) where
  back4 :
      n < 2 ^ 32
      → p < 2 ^ 16
      → get_sock_addr t (set_port p (set_addr (t.ntop4 n) unset)) ≡ inet4 n p
  unfolding get_sock_addr set_port set_addr
  back4 h k = ap₂ inet4 (ap or_zero (t.reads4 n h)) (atoi_port-to_string p k)

  back6 :
      n < 2 ^ 128
      → p < 2 ^ 16
      → get_sock_addr t (set_is_ipv6 true (set_port p (set_addr (t.ntop6 n) unset))) ≡ inet6 n p 0 0
  unfolding get_sock_addr set_port set_addr set_is_ipv6
  back6 h k = ap₂ (λ a q. inet6 a q 0 0) (ap or_zero (t.reads6 n h)) (atoi_port-to_string p k)

-- `GetSockAddr` turns the address that `Accept` stores for a new connection with a descriptor other
-- than 0, or that `GetPeerAddress` returns, back into a socket address of the same family, address
-- and port, for IPv4 and IPv6 addresses within their widths. The flow information and the scope of an
-- IPv6 address are not kept: they come back as 0, so that a link-local peer loses its scope.
pub get_sock_addr-accept :
    (t : AddressText) (s : SockAddr) (fd : ℕ)
    → InWidth s
    → 0 < fd
    → (get_sock_addr t (accept t (some fd) s unset).1 ≡ without_scope s)
      × (get_sock_addr t (get_peer_address t s) ≡ without_scope s)
unfolding accept get_peer_address get_sock_addr to_inet_address set_port set_addr set_is_ipv6
get_sock_addr-accept t (inet4 n p) fd (a, w) pos =
    (rw (lt→ltb 0 fd pos) (back4 t n p a w), back4 t n p a w)
get_sock_addr-accept t (inet6 n p flow scope) fd (a, w, f, s) pos =
    (rw (lt→ltb 0 fd pos) (back6 t n p a w), back6 t n p a w)
get_sock_addr-accept t other_family fd w pos = absurd w

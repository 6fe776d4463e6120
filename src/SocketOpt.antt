-- ===== src/SocketOpt.antt =====
-- src/network/base/SocketOpt.cpp: how socket addresses become `InetAddress` values, and
-- `GetSockAddr` of src/network/base/InetAddress.cpp, which is the other direction. The calls that
-- only pass a value on to the socket library are left out.
pub mod RoundTrip
mod Examples
use tmms.Common.{
  ℕ, ◌-◌, ◌%◌, ◌^◌, ◌<◌, ◌≡◌, true, false, Option, none, some, List, [], ltb, if◌then◌else◌,
}
use tmms.InetAddress.{InetAddress, set_addr, set_port, set_is_ipv6, skip_space, sign, value}

-- `inet_ntop` and `inet_pton` for both families; an address is a number. They are each other's
-- inverse on addresses that are printed.
pub record AddressText : Type 0 where
  pub ntop4 : ℕ → List ℕ
  pub ntop6 : ℕ → List ℕ
  pub pton4 : List ℕ → Option ℕ
  pub pton6 : List ℕ → Option ℕ
  pub reads4 : (n : ℕ) → n < 2 ^ 32 → pton4 (ntop4 n) ≡ some n
  pub reads6 : (n : ℕ) → n < 2 ^ 128 → pton6 (ntop6 n) ≡ some n

-- A socket address by its family: the address and the port in the host's order, and for IPv6 the
-- flow information and the scope.
pub data SockAddr : Type 0 where
  inet4 : ℕ → ℕ → SockAddr
  inet6 : ℕ → ℕ → ℕ → ℕ → SockAddr
  other_family : SockAddr

-- A default `InetAddress`.
abbrev pub unset : InetAddress
unset = record { addr = []; port_text = []; is_ipv6 = false }

abbrev or_zero : Option ℕ → ℕ
or_zero none = 0
or_zero (some n) = n

-- `htons(std::atoi(text))`: 16 bits of the value, of an `int` that it fits into.
pub atoi_port : List ℕ → ℕ
atoi_port text =
    let parts = sign (skip_space text) in
    let n = value 0 parts.1 % 2 ^ 16 in if parts.0 then (2 ^ 16 - n) % 2 ^ 16 else n

module _ (t : AddressText) where
  -- The common part of `Accept`, `GetLocalAddress` and `GetPeerAddress`.
  pub to_inet_address : SockAddr → InetAddress → InetAddress
  to_inet_address (inet4 n port) a = set_port port (set_addr (t.ntop4 n) a)
  to_inet_address (inet6 n port flow scope) a =
      set_is_ipv6 true (set_port port (set_addr (t.ntop6 n) a))
  to_inet_address other_family a = a

  -- `Accept`: `connfd` is what `accept4` returned, -1 as `none`. Descriptor 0 sets no address.
  pub accept : Option ℕ → SockAddr → InetAddress → Option ℕ × InetAddress
  unfolding to_inet_address
  accept none s a = (none, a)
  accept (some fd) s a = (some fd, if ltb 0 fd then to_inet_address s a else a)

  pub get_local_address : SockAddr → InetAddress
  unfolding to_inet_address
  get_local_address s = to_inet_address s unset

  pub get_peer_address : SockAddr → InetAddress
  unfolding to_inet_address
  get_peer_address s = to_inet_address s unset

  -- `InetAddress::GetSockAddr`: an address that cannot be read leaves the cleared structure,
  -- and the flow information and the scope of IPv6 stay cleared.
  pub get_sock_addr : InetAddress → SockAddr
  unfolding atoi_port
  get_sock_addr a =
      if a.is_ipv6
      then inet6 (or_zero (t.pton6 a.addr)) (atoi_port a.port_text) 0 0
      else inet4 (or_zero (t.pton4 a.addr)) (atoi_port a.port_text)

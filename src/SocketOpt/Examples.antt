-- ===== src/SocketOpt/Examples.antt =====
-- A stand-in for the text of addresses, and an example of the round trip.
use tmms.Common.{ℕ, ◌≡◌, refl, Option, none, some, List, [], ◌∷◌, arith}
use tmms.SocketOpt.{AddressText, SockAddr, inet6, unset, accept, get_peer_address, get_sock_addr}
use tmms.SocketOpt.RoundTrip.{get_sock_addr-accept}

abbrev only : List ℕ → Option ℕ
only [] = none
only (n ∷ []) = some n
only (n ∷ m ∷ ms) = none

-- An address is printed as one character.
abbrev one_character : AddressText
one_character = record {
  ntop4 = λ n. n ∷ [];
  ntop6 = λ n. n ∷ [];
  pton4 = only;
  pton6 = only;
  reads4 = λ n h. refl;
  reads6 = λ n h. refl;
}

-- A peer on the link of interface 2.
abbrev link_local : SockAddr
link_local = inet6 1 8080 0 2

get_sock_addr-accept_example :
    (get_sock_addr one_character (accept one_character (some 7) link_local unset).1
      ≡ inet6 1 8080 0 0)
    × (get_sock_addr one_character (get_peer_address one_character link_local) ≡ inet6 1 8080 0 0)
get_sock_addr-accept_example =
    get_sock_addr-accept one_character link_local 7
      (omega arith, omega arith, omega arith, omega arith) (omega arith)

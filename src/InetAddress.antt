-- ===== src/InetAddress.antt =====
-- src/network/base/InetAddress.cpp. A text is the list of its bytes. `inet_pton` is an argument: its
-- result is the address as `ntohl` gives it, or `none` where the call fails, which leaves the
-- cleared structure at 0. `GetSockAddr` is in SocketOpt.
pub mod Texts
pub mod Ports
pub mod Ranges
mod Examples
use tmms.Common.{
  ℕ, zero, suc, ◌+◌, ◌-◌, ◌*◌, ◌/◌, ◌%◌, ◌^◌, Bool, true, false, ◌&&◌, ◌||◌, not, Option, none,
  some, List, [], ◌∷◌, ◌++◌, ltb, leb, ◌==◌, if◌then◌else◌,
}
use tmms.StringUtils.{same}

abbrev pub colon : ℕ
colon = 58

pub record InetAddress : Type 0 where
  pub addr : List ℕ
  pub port_text : List ℕ
  pub is_ipv6 : Bool

-- The decimal digits of `n` in front of `acc`; `n` is enough fuel.
unfoldable pub digits : ℕ → ℕ → List ℕ → List ℕ
digits zero n acc = (48 + n) ∷ acc
digits (suc fuel) n acc =
    let rest = digits fuel (n / 10) ((48 + n % 10) ∷ acc) in
    if ltb n 10 then (48 + n) ∷ acc else rest

abbrev pub to_string : ℕ → List ℕ
to_string n = digits n n []

-- `find(':')` with both parts.
unfoldable pub split_colon : List ℕ → Option (List ℕ × List ℕ)
split_colon [] = none
split_colon (c ∷ cs) =
    if c == colon
    then some ([], cs)
    else elim (split_colon cs) [ none ↦ none | some (ip, port) ↦ some (c ∷ ip, port) ]

abbrev pub or_port_0 : List ℕ → Option (List ℕ × List ℕ) → List ℕ × List ℕ
or_port_0 host none = (host, 48 ∷ [])
or_port_0 host (some parts) = parts

pub get_ip_and_port : List ℕ → List ℕ × List ℕ
get_ip_and_port host = or_port_0 host (split_colon host)

pub set_host : List ℕ → InetAddress → InetAddress
unfolding get_ip_and_port
set_host host a = record a { addr = (get_ip_and_port host).0; port_text = (get_ip_and_port host).1 }

-- The constructor with a port.
pub from_host_and_port : List ℕ → ℕ → Bool → InetAddress
unfolding set_host
from_host_and_port host port is_v6 =
    set_host host (record { addr = host; port_text = to_string port; is_ipv6 = is_v6 })

pub from_host : List ℕ → Bool → InetAddress
unfolding set_host
from_host host is_v6 = set_host host (record { addr = []; port_text = []; is_ipv6 = is_v6 })

unfoldable pub set_addr : List ℕ → InetAddress → InetAddress
set_addr text a = record a { addr = text }

unfoldable pub set_port : ℕ → InetAddress → InetAddress
set_port port a = record a { port_text = to_string port }

unfoldable pub set_is_ipv6 : Bool → InetAddress → InetAddress
set_is_ipv6 is_v6 a = record a { is_ipv6 = is_v6 }

pub to_ip_port : InetAddress → List ℕ
to_ip_port a = a.addr ++ colon ∷ a.port_text

abbrev pub is_digit : ℕ → Bool
is_digit c = leb 48 c && leb c 57

-- The value of the digits in front, after `n`.
unfoldable pub value : ℕ → List ℕ → ℕ
value n [] = n
value n (c ∷ cs) = let rest = value (n * 10 + (c - 48)) cs in if is_digit c then rest else n

abbrev pub is_space : ℕ → Bool
is_space c = (c == 32) || (leb 9 c && leb c 13)

unfoldable pub skip_space : List ℕ → List ℕ
skip_space [] = []
skip_space (c ∷ cs) = let rest = skip_space cs in if is_space c then rest else c ∷ cs

-- The sign and what follows it; `true` is minus.
abbrev pub sign : List ℕ → Bool × List ℕ
sign [] = (false, [])
sign (c ∷ cs) = if c == 45 then (true, cs) else if c == 43 then (false, cs) else (false, c ∷ cs)

abbrev pub has_digit : List ℕ → Bool
has_digit [] = false
has_digit (c ∷ cs) = is_digit c

-- `Port`: `std::stoi` throws without a digit or outside of `int`; the result is cut to 16 bits.
pub port : InetAddress → Option ℕ
port a =
    let text = sign (skip_space a.port_text) in
    let n = value 0 text.1 in
    if not (has_digit text.1)
    then none
    else if text.0
    then (if leb n (2 ^ 31) then some ((2 ^ 32 - n) % 2 ^ 16) else none)
    else if ltb n (2 ^ 31)
    then some (n % 2 ^ 16)
    else none

-- The text of an IPv4 address and its number.
abbrev pub dotted : ℕ → ℕ → ℕ → ℕ → List ℕ
dotted a b c d = to_string a ++ 46 ∷ to_string b ++ 46 ∷ to_string c ++ 46 ∷ to_string d

abbrev pub or_zero : Option ℕ → ℕ
or_zero none = 0
or_zero (some n) = n

pub ipv4 : (List ℕ → Option ℕ) → List ℕ → ℕ
ipv4 inet_pton ip = or_zero (inet_pton ip)

abbrev within : ℕ → ℕ → ℕ → Bool
within first last ip = leb first ip && leb ip last

pub is_wan_ip : (List ℕ → Option ℕ) → InetAddress → Bool
unfolding ipv4
is_wan_ip inet_pton a =
    let number = ipv4 inet_pton in
    let ip = number a.addr in
    if within (number (dotted 10 0 0 0)) (number (dotted 10 255 255 255)) ip
    then false
    else if within (number (dotted 172 16 0 0)) (number (dotted 172 31 255 255)) ip
    then false
    else if within (number (dotted 192 168 0 0)) (number (dotted 192 168 255 255)) ip
    then false
    else if within (number (dotted 127 0 0 0)) (number (dotted 127 255 255 255)) ip
    then false
    else if within (number (dotted 169 254 0 0)) (number (dotted 169 254 255 255)) ip
    then false
    else true

pub is_lan_ip : (List ℕ → Option ℕ) → InetAddress → Bool
unfolding ipv4
is_lan_ip inet_pton a =
    let number = ipv4 inet_pton in
    let ip = number a.addr in
    within (number (dotted 10 0 0 0)) (number (dotted 10 255 255 255)) ip
    || (within (number (dotted 172 16 0 0)) (number (dotted 172 31 255 255)) ip
        || within (number (dotted 192 168 0 0)) (number (dotted 192 168 255 255)) ip)

pub is_loopback : InetAddress → Bool
is_loopback a = same a.addr (dotted 127 0 0 1)

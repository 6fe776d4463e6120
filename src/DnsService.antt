-- ===== src/DnsService.antt =====
-- src/network/DnsService.cpp. The table of hosts is an association list. What `getaddrinfo` answers
-- is an argument. Locks are left out; the thread and what it sleeps are in Worker.
pub mod Refresh
pub mod Choice
pub mod Worker
mod Examples
use tmms.Common.{
  ℕ, zero, suc, ◌%◌, Bool, true, false, Option, none, some, List, [], ◌∷◌, length, get_elem?,
  if◌then◌else◌,
}
use tmms.StringUtils.{same}
use tmms.InetAddress.{InetAddress, set_addr, set_port}

pub data AddrInfo : Type 0 where
  inet4 inet6 : List ℕ → ℕ → AddrInfo
  other_family : AddrInfo

-- A call of `getaddrinfo`: it succeeds with a list, or fails. A failure leaves `res` unset; it has the
-- Boolean whether the code is -1, the only one that `GetHostInfo` takes for an error, and what `res`
-- then happens to be: null, or a pointer at which there is some list. Where reading that ends the
-- program there is nothing to represent.
pub data Lookup : Type 0 where
  succeeded : List AddrInfo → Lookup
  failed : Bool → Option (List AddrInfo) → Lookup

abbrev pub Table : Type 0
Table = List (List ℕ × List InetAddress)

unfoldable pub find_host : List ℕ → Table → Option (List InetAddress)
find_host host [] = none
find_host host ((h, list) ∷ rows) =
    let rest = find_host host rows in if same h host then some list else rest

abbrev pub is_known : Option (List InetAddress) → Bool
is_known none = false
is_known (some list) = true

-- `host_info_[host] = list`.
unfoldable pub assign : List ℕ → List InetAddress → Table → Table
assign host list [] = (host, list) ∷ []
assign host list ((h, old) ∷ rows) =
    let rest = assign host list rows in if same h host then (h, list) ∷ rows else (h, old) ∷ rest

pub add_host : List ℕ → Table → Table
add_host host t = if is_known (find_host host t) then t else assign host [] t

abbrev pub or_empty : Option (List InetAddress) → List InetAddress
or_empty none = []
or_empty (some list) = list

-- `GetHostAddress(host)`.
pub get_host_addresses : List ℕ → Table → List InetAddress
get_host_addresses host t = or_empty (find_host host t)

-- The choice from a list that is not empty; the index is the `size_t` that it is converted to.
abbrev pub choose_at : ℕ → List InetAddress → Option InetAddress
choose_at index [] = none
choose_at index (a ∷ list) = get_elem? (a ∷ list) (index % length (a ∷ list))

-- `GetHostAddress(host, index)`; `none` is the null pointer.
pub get_host_address : List ℕ → ℕ → Table → Option InetAddress
get_host_address host index t = choose_at index (or_empty (find_host host t))

abbrev pub blank : InetAddress
blank = record { addr = []; port_text = []; is_ipv6 = false }

-- The branch for IPv6 stands inside that for IPv4 and is never taken.
unfoldable pub collect : List AddrInfo → List InetAddress
collect [] = []
collect (inet4 ip port ∷ rest) = set_port port (set_addr ip blank) ∷ collect rest
collect (inet6 ip port ∷ rest) = collect rest
collect (other_family ∷ rest) = collect rest

pub get_host_info : Lookup → List InetAddress
unfolding collect
get_host_info (succeeded res) = collect res
get_host_info (failed true res) = []
get_host_info (failed false none) = []
get_host_info (failed false (some res)) = collect res

-- What `UpdateHost` does with the table.
pub update_host : List ℕ → List InetAddress → Table → Table
update_host host list t = assign host list t

abbrev pub is_empty : List InetAddress → Bool
is_empty [] = true
is_empty (a ∷ list) = false

-- The attempts from number `i` on, `retry` of them.
pub attempts : (ℕ → Lookup) → ℕ → ℕ → List ℕ → Table → Table
unfolding get_host_info update_host
attempts resolve zero i host t = t
attempts resolve (suc retry) i host t =
    let list = get_host_info (resolve i) in
    let rest = attempts resolve retry (suc i) host t in
    if is_empty list then rest else update_host host list t

-- The loop over the copy of the table.
pub refresh_all : (List ℕ → ℕ → Lookup) → ℕ → Table → Table → Table
unfolding attempts
refresh_all resolve retry [] t = t
refresh_all resolve retry ((host, list) ∷ rows) t =
    refresh_all resolve retry rows (attempts (resolve host) retry 0 host t)

-- A round of `OnWork`.
pub on_work : (List ℕ → ℕ → Lookup) → ℕ → Table → Table
unfolding refresh_all
on_work resolve retry t = refresh_all resolve retry t t

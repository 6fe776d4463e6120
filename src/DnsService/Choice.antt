-- ===== src/DnsService/Choice.antt =====
-- Which address `GetHostAddress` of src/network/DnsService.cpp returns.
use native.Mathlib.Nat.{add-mod_right}
use tmms.Common.{
  ℕ, zero, suc, ◌+◌, ◌%◌, ◌<◌, ◌≡◌, refl, ap, some, List, [], ◌∷◌, arith, length, get_elem?,
}
use tmms.InetAddress.{InetAddress}
use tmms.DnsService.{Table, find_host, or_empty, get_host_addresses, choose_at, get_host_address}

get_elem?-some :
    (list : List InetAddress) (i : ℕ)
    → i < length list
    → (a : InetAddress) × (get_elem? list i ≡ some a)
get_elem?-some [] i h = absurd (omega arith)
get_elem?-some (a ∷ list) zero h = (a, refl)
get_elem?-some (a ∷ list) (suc i) h = get_elem?-some list i (omega arith)

-- For any index, `GetHostAddress` returns one of the addresses of a host that has some, the same
-- for the index and for the index plus their number.
pub get_host_address_lem :
    (host : List ℕ) (index : ℕ) (t : Table)
    → 0 < length (get_host_addresses host t)
    → ((a : InetAddress) × (get_host_address host index t ≡ some a))
      × (get_host_address host (index + length (get_host_addresses host t)) t
          ≡ get_host_address host index t)
unfolding get_host_address get_host_addresses
get_host_address_lem host index t h = go (or_empty (find_host host t)) h
  where
    go :
        (list : List InetAddress)
        → 0 < length list
        → ((a : InetAddress) × (choose_at index list ≡ some a))
          × (choose_at (index + length list) list ≡ choose_at index list)
    go [] h = absurd (omega arith)
    go (b ∷ list) h = (
      get_elem?-some (b ∷ list) (index % length (b ∷ list)) (omega arith),
      ap (get_elem? (b ∷ list)) (add-mod_right index (length (b ∷ list))),
    )

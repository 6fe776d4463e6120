-- ===== src/DnsService/Refresh.antt =====
-- What a round of `OnWork` of src/network/DnsService.cpp makes of the table.
use tmms.Common.{
  ℕ, zero, suc, ◌≡◌, refl, ap, ◌∙◌, ◌⊎◌, inl, inr, Bool, true, false, Option, none, some, List, [],
  ◌∷◌, arith, if◌then◌else◌, Bool-cases,
}
use tmms.StringUtils.{same}
use tmms.StringUtils.Affixes.{same→eq}
use tmms.InetAddress.{InetAddress, to_string, set_addr, set_port}
use tmms.DnsService.{
  AddrInfo, inet4, inet6, other_family, Lookup, succeeded, failed, Table, find_host, is_known,
  assign, collect, get_host_info, update_host, is_empty, attempts, refresh_all, on_work,
}

pub find_host-assign :
    (host h : List ℕ) (list : List InetAddress) (t : Table)
    → find_host h (assign host list t) ≡ (if same host h then some list else find_host h t)
unfolding find_host assign
find_host-assign host h list [] = refl
find_host-assign host h list ((k, old) ∷ rows) = elim (Bool-cases (same k host)) [
  | inl hit ↦ rw (hit, same→eq k host hit) (ground arith)
  | inr miss ↦ rw (miss, find_host-assign host h list rows) (apart miss (Bool-cases (same host h)))
]
  where
    apart :
        same k host ≡ false
        → (same host h ≡ true) ⊎ (same host h ≡ false)
        → (if same k h then some old else if same host h then some list else find_host h rows)
          ≡ (if same host h then some list else if same k h then some old else find_host h rows)
    apart miss (inl e) = ground (arith, ap (same k) (same→eq host h e))
    apart miss (inr e) = ground arith

-- A lookup that does not fail with another error than -1.
abbrev pub IsSeen : Lookup → Type 0
IsSeen (succeeded res) = Unit {0}
IsSeen (failed minus_one res) = minus_one ≡ true

-- The IPv4 addresses of a list.
unfoldable pub ipv4_addresses : List AddrInfo → List InetAddress
ipv4_addresses [] = []
ipv4_addresses (inet4 ip port ∷ rest) =
    record { addr = ip; port_text = to_string port; is_ipv6 = false } ∷ ipv4_addresses rest
ipv4_addresses (inet6 ip port ∷ rest) = ipv4_addresses rest
ipv4_addresses (other_family ∷ rest) = ipv4_addresses rest

-- What a lookup finds: nothing where it fails.
unfoldable pub found : Lookup → List InetAddress
unfolding ipv4_addresses
found (succeeded res) = ipv4_addresses res
found (failed minus_one res) = []

collect-ipv4_addresses : (res : List AddrInfo) → collect res ≡ ipv4_addresses res
unfolding collect ipv4_addresses set_port set_addr
collect-ipv4_addresses [] = refl
collect-ipv4_addresses (inet4 ip port ∷ rest) =
    ap (◌∷◌ (record { addr = ip; port_text = to_string port; is_ipv6 = false }))
      (collect-ipv4_addresses rest)
collect-ipv4_addresses (inet6 ip port ∷ rest) = collect-ipv4_addresses rest
collect-ipv4_addresses (other_family ∷ rest) = collect-ipv4_addresses rest

get_host_info-found : (r : Lookup) → IsSeen r → get_host_info r ≡ found r
unfolding get_host_info found
get_host_info-found (succeeded res) seen = collect-ipv4_addresses res
get_host_info-found (failed true res) seen = refl
get_host_info-found (failed false none) seen = refl
get_host_info-found (failed false (some res)) seen = absurd cc

-- What the first attempt from number `i` on that finds something finds, within `retry` attempts.
unfoldable pub first_hit : (ℕ → Lookup) → ℕ → ℕ → Option (List InetAddress)
first_hit resolve zero i = none
first_hit resolve (suc retry) i =
    let rest = first_hit resolve retry (suc i) in
    if is_empty (found (resolve i)) then rest else some (found (resolve i))

abbrev pub or_old :
    Option (List InetAddress) → Option (List InetAddress) → Option (List InetAddress)
or_old none old = old
or_old (some list) old = some list

find_host-attempts :
    (resolve : ℕ → Lookup) (retry i : ℕ) (host h : List ℕ) (t : Table)
    → ((j : ℕ) → IsSeen (resolve j))
    → find_host h (attempts resolve retry i host t)
      ≡ (if same host h then or_old (first_hit resolve retry i) (find_host h t) else find_host h t)
unfolding attempts first_hit update_host
find_host-attempts resolve zero i host h t seen = ground arith
find_host-attempts resolve (suc retry) i host h t seen =
    rw (get_host_info-found (resolve i) (seen i))
      (elim (Bool-cases (is_empty (found (resolve i)))) [
        | inl nothing ↦ rw nothing (find_host-attempts resolve retry (suc i) host h t seen)
        | inr some_list ↦ rw some_list (find_host-assign host h (found (resolve i)) t)
      ])

or_old_twice :
    (f old : Option (List InetAddress)) (again : Bool)
    → (if again then or_old f (or_old f old) else or_old f old) ≡ or_old f old
or_old_twice none old again = ground arith
or_old_twice (some list) old again = ground arith

find_host-refresh_all :
    (resolve : List ℕ → ℕ → Lookup) (retry : ℕ) (h : List ℕ) (rows t : Table)
    → ((g : List ℕ) (j : ℕ) → IsSeen (resolve g j))
    → find_host h (refresh_all resolve retry rows t) ≡ (
        if is_known (find_host h rows)
        then or_old (first_hit (resolve h) retry 0) (find_host h t)
        else find_host h t)
unfolding refresh_all find_host
find_host-refresh_all resolve retry h [] t seen = refl
find_host-refresh_all resolve retry h ((k, list) ∷ rows) t seen =
    find_host-refresh_all resolve retry h rows (attempts (resolve k) retry 0 k t) seen
    ∙ ap (λ o. if is_known (find_host h rows) then or_old (first_hit (resolve h) retry 0) o else o)
        (find_host-attempts (resolve k) retry 0 k h t (seen k))
    ∙ by_key (Bool-cases (same k h))
  where
    old : Option (List InetAddress)
    old = find_host h t

    now : List ℕ → Option (List InetAddress)
    now g =
        if same k h then or_old (first_hit (resolve g) retry 0) (find_host h t) else find_host h t

    by_key :
        (same k h ≡ true) ⊎ (same k h ≡ false)
        → (if is_known (find_host h rows)
            then or_old (first_hit (resolve h) retry 0) (now k)
            else now k)
          ≡ (if is_known (if same k h then some list else find_host h rows)
              then or_old (first_hit (resolve h) retry 0) (find_host h t)
              else find_host h t)
    by_key (inl e) =
        ap
          (λ g.
            if is_known (find_host h rows)
            then or_old (first_hit (resolve h) retry 0) (now g)
            else now g)
          (same→eq k h e)
        ∙ rw e (
            or_old_twice (first_hit (resolve h) retry 0) (find_host h t)
              (is_known (find_host h rows)))
    by_key (inr e) = rw e refl

-- If no lookup fails with another error than -1, which `GetHostInfo` does not see, a round of `OnWork`
-- gives every host of the table the IPv4 addresses of its first attempt, out of `retry`, that
-- succeeds and finds any, and keeps the old addresses where none does. A host that is not in the table
-- does not enter it.
pub find_host-on_work :
    (resolve : List ℕ → ℕ → Lookup) (retry : ℕ) (h : List ℕ) (t : Table)
    → ((g : List ℕ) (j : ℕ) → IsSeen (resolve g j))
    → find_host h (on_work resolve retry t) ≡ (
        if is_known (find_host h t)
        then or_old (first_hit (resolve h) retry 0) (find_host h t)
        else none)
unfolding on_work
find_host-on_work resolve retry h t seen =
    find_host-refresh_all resolve retry h t t seen ∙ unknown (find_host h t)
  where
    unknown :
        (o : Option (List InetAddress))
        → (if is_known o then or_old (first_hit (resolve h) retry 0) o else o)
          ≡ (if is_known o then or_old (first_hit (resolve h) retry 0) o else none)
    unknown none = refl
    unknown (some list) = refl

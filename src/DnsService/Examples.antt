-- ===== src/DnsService/Examples.antt =====
-- Runs of the host table and examples of its theorems.
use tmms.Common.{
  ℕ, zero, suc, ◌+◌, ◌≤◌, ◌<◌, ◌≡◌, refl, true, none, some, List, [], ◌∷◌, arith, length,
  if◌then◌else◌,
}
use tmms.StringUtils.{same}
use tmms.DnsService.{
  Lookup, succeeded, failed, inet4, inet6, Table, find_host, is_known, assign, add_host,
  get_host_addresses, blank, on_work,
}
use tmms.DnsService.Worker.{Service, start, stop, new_params, work_until, longest, stop_returns}
use tmms.DnsService.Refresh.{IsSeen, first_hit, or_old, find_host-on_work}

abbrev here : List ℕ
here = 104 ∷ []

abbrev known : Table
known = (here, blank ∷ blank ∷ []) ∷ []

-- The first attempt has an IPv6 address only, the second fails with -1, the third an IPv4 address.
abbrev resolve : List ℕ → ℕ → Lookup
resolve host zero = succeeded (inet6 (58 ∷ []) 80 ∷ [])
resolve host (suc zero) = failed true none
resolve host (suc (suc i)) = succeeded (inet4 (49 ∷ []) 80 ∷ [])

added : add_host here [] ≡ (here, []) ∷ []
unfolding add_host find_host assign
added = refl

resolve-IsSeen : (h : List ℕ) (i : ℕ) → IsSeen (resolve h i)
resolve-IsSeen h zero = _
resolve-IsSeen h (suc zero) = refl
resolve-IsSeen h (suc (suc i)) = _

find_host-on_work_example : find_host here (on_work resolve 3 known) ≡ (
    if is_known (find_host here known)
    then or_old (first_hit (resolve here) 3 0) (find_host here known)
    else none)
find_host-on_work_example = find_host-on_work resolve 3 here known resolve-IsSeen

known_two : 0 < length (get_host_addresses here known)
unfolding get_host_addresses find_host same
known_two = omega arith

abbrev service : Service
service = record { running = true; joinable = true; params = new_params }

started_twice : start service ≡ none
unfolding start
started_twice = refl

started_again : start (stop service) ≡ some service
unfolding start stop
started_again = refl

-- `Stop` is called a second after the start, in the sleep of the first round.
stop_returns_example :
    (e : ℕ) × (u : Table) × (work_until new_params 1000 (resolve ∷ []) 0 known ≡ some (e, u))
    × (1000 ≤ e)
    × (e ≤ 1000 + longest 1 new_params)
stop_returns_example = stop_returns new_params 1000 (resolve ∷ []) known (omega arith)

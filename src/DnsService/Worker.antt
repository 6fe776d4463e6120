-- ===== src/DnsService/Worker.antt =====
-- The thread of src/network/DnsService.cpp: `Start`, `OnWork` and `Stop`. A time is in milliseconds from
-- the start of the thread, and counts what it sleeps; what `getaddrinfo` takes is left out.
use tmms.Common.{
  ℕ, zero, suc, ◌+◌, ◌*◌, ◌≤◌, ◌<◌, ◌≡◌, refl, ◌∙◌, subst, inl, inr, Bool, true, false, Option,
  none, some, List, [], ◌∷◌, arith, length, leb, if◌then◌else◌, Bool-cases,
}
use tmms.StringUtils.Affixes.{same_self}
use tmms.InetAddress.{InetAddress}
use tmms.DnsService.{
  Lookup, Table, find_host, is_known, assign, get_host_info, update_host, is_empty, attempts,
  refresh_all, on_work,
}
use tmms.DnsService.Refresh.{find_host-assign}

pub record Params : Type 0 where
  pub retry : ℕ
  pub sleep : ℕ
  pub interval : ℕ

abbrev pub set_dns_service_params : ℕ → ℕ → ℕ → Params
set_dns_service_params retry sleep interval = record {
  retry = retry;
  sleep = sleep;
  interval = interval;
}

abbrev pub new_params : Params
new_params = set_dns_service_params 3 200 180000

-- `thread_` is joinable from `Start` until `Stop` has joined it.
pub record Service : Type 0 where
  pub running : Bool
  pub joinable : Bool
  pub params : Params

-- `Start`. A thread that is assigned to one that is joinable ends the program: `none`.
unfoldable pub start : Service → Option Service
start s = if s.joinable then none else some (record s { running = true; joinable = true })

-- `Stop`, when `join` has returned.
unfoldable pub stop : Service → Service
stop s = record s { running = false; joinable = false }

-- What each host gets as an answer at each attempt of a round.
abbrev pub Answers : Type 0
Answers = List ℕ → ℕ → Lookup

-- What the attempts for a host sleep, from number `i` on.
unfoldable pub attempts_sleep : (ℕ → Lookup) → ℕ → ℕ → ℕ → ℕ
attempts_sleep resolve sleep zero i = 0
attempts_sleep resolve sleep (suc retry) i =
    let rest = attempts_sleep resolve sleep retry (suc i) in
    if is_empty (get_host_info (resolve i)) then sleep + rest else 0

unfoldable pub hosts_sleep : Answers → Params → Table → ℕ
unfolding attempts_sleep
hosts_sleep resolve p [] = 0
hosts_sleep resolve p ((host, list) ∷ rows) =
    attempts_sleep (resolve host) p.sleep p.retry 0 + hosts_sleep resolve p rows

-- What a round of `OnWork` sleeps.
pub round_sleep : Answers → Params → Table → ℕ
unfolding hosts_sleep
round_sleep resolve p t = hosts_sleep resolve p t + p.interval

-- The loop of `OnWork` from the time `now` on, where `Stop` clears `running_` at a time. The result is
-- the time at which the thread ends, or `none` if there are no answers for another round.
unfoldable pub work_until : Params → ℕ → List Answers → ℕ → Table → Option (ℕ × Table)
unfolding round_sleep
work_until p stop_at [] now t = if leb stop_at now then some (now, t) else none
work_until p stop_at (r ∷ rs) now t =
    let later = work_until p stop_at rs (now + round_sleep r p t) (on_work r p.retry t) in
    if leb stop_at now then some (now, t) else later

length-assign :
    (host : List ℕ) (list : List InetAddress) (t : Table)
    → is_known (find_host host t) ≡ true
    → length (assign host list t) ≡ length t
unfolding assign find_host
length-assign host list [] h = absurd cc
length-assign host list ((k, old) ∷ rows) h = ground (arith, h, length-assign host list rows)

known-assign :
    (host h : List ℕ) (list : List InetAddress) (t : Table)
    → is_known (find_host h t) ≡ true
    → is_known (find_host h (assign host list t)) ≡ true
known-assign host h list t k = ground (arith, find_host-assign host h list t, k)

-- What a refresh of a host that the table has keeps: the number of hosts, and which they are.
record Kept (t u : Table) : Type 0 where
  same_length : length u ≡ length t
  still_known : (h : List ℕ) → is_known (find_host h t) ≡ true → is_known (find_host h u) ≡ true

attempts-Kept :
    (resolve : ℕ → Lookup) (retry i : ℕ) (host : List ℕ) (t : Table)
    → is_known (find_host host t) ≡ true
    → Kept t (attempts resolve retry i host t)
unfolding attempts update_host
attempts-Kept resolve zero i host t k = record { same_length = refl; still_known = λ h e. e }
attempts-Kept resolve (suc retry) i host t k =
    elim (Bool-cases (is_empty (get_host_info (resolve i)))) [
      | inl nothing ↦ rw nothing (attempts-Kept resolve retry (suc i) host t k)
      | inr found ↦ rw found (record {
        same_length = length-assign host (get_host_info (resolve i)) t k;
        still_known = λ h e. known-assign host h (get_host_info (resolve i)) t e;
      })
    ]

AllKnown : Table → Table → Type 0
AllKnown [] t = Unit {0}
AllKnown ((host, list) ∷ rows) t = (is_known (find_host host t) ≡ true) × AllKnown rows t

AllKnown-Kept : (rows t u : Table) → Kept t u → AllKnown rows t → AllKnown rows u
unfolding AllKnown
AllKnown-Kept [] t u k a = _
AllKnown-Kept ((host, list) ∷ rows) t u k (e, a) =
    (k.still_known host e, AllKnown-Kept rows t u k a)

length-refresh_all :
    (resolve : Answers) (retry : ℕ) (rows t : Table)
    → AllKnown rows t
    → length (refresh_all resolve retry rows t) ≡ length t
unfolding refresh_all AllKnown
length-refresh_all resolve retry [] t a = refl
length-refresh_all resolve retry ((host, list) ∷ rows) t (e, a) =
    let kept = attempts-Kept (resolve host) retry 0 host t e in
    let next : Table = attempts (resolve host) retry 0 host t in
    length-refresh_all resolve retry rows next (AllKnown-Kept rows t next kept a) ∙ kept.same_length

more-AllKnown :
    (rows t : Table) (row : List ℕ × List InetAddress) → AllKnown rows t → AllKnown rows (row ∷ t)
unfolding AllKnown find_host
more-AllKnown [] t row a = _
more-AllKnown ((host, list) ∷ rows) t (k, l) (e, a) =
    (ground (arith, e), more-AllKnown rows t (k, l) a)

self-AllKnown : (t : Table) → AllKnown t t
unfolding AllKnown find_host
self-AllKnown [] = _
self-AllKnown ((host, list) ∷ rows) =
    (ground (arith, same_self host), more-AllKnown rows rows (host, list) (self-AllKnown rows))

length-on_work :
    (resolve : Answers) (retry : ℕ) (t : Table) → length (on_work resolve retry t) ≡ length t
unfolding on_work
length-on_work resolve retry t = length-refresh_all resolve retry t t (self-AllKnown t)

attempts_sleep-le :
    (resolve : ℕ → Lookup) (sleep retry i : ℕ)
    → attempts_sleep resolve sleep retry i ≤ retry * sleep
unfolding attempts_sleep
attempts_sleep-le resolve sleep zero i = omega arith
attempts_sleep-le resolve sleep (suc retry) i =
    ground (arith, attempts_sleep-le resolve sleep retry (suc i))

hosts_sleep-le :
    (resolve : Answers) (p : Params) (t : Table)
    → hosts_sleep resolve p t ≤ length t * (p.retry * p.sleep)
unfolding hosts_sleep
hosts_sleep-le resolve p [] = omega arith
hosts_sleep-le resolve p ((host, list) ∷ rows) =
    omega (arith, attempts_sleep-le (resolve host) p.sleep p.retry 0, hosts_sleep-le resolve p rows)

-- What a round sleeps at most, for so many hosts.
abbrev pub longest : ℕ → Params → ℕ
longest hosts p = hosts * (p.retry * p.sleep) + p.interval

work_until_lem :
    (p : Params) (stop_at hosts : ℕ) (rs : List Answers) (now : ℕ) (t : Table)
    → length t ≡ hosts
    → now ≤ stop_at + longest hosts p
    → stop_at ≤ now + length rs * p.interval
    → (e : ℕ) × (u : Table) × (work_until p stop_at rs now t ≡ some (e, u))
      × (stop_at ≤ e)
      × (e ≤ stop_at + longest hosts p)
unfolding work_until round_sleep
work_until_lem p stop_at hosts [] now t same bound enough =
    (now, t, ground (arith, enough), omega arith, bound)
work_until_lem p stop_at hosts (r ∷ rs) now t same bound enough =
    elim (Bool-cases (leb stop_at now)) [
      | inl over ↦ (now, t, rw over (refl), ground (arith, over), bound)
      | inr before ↦
          let slept : hosts_sleep r p t ≤ hosts * (p.retry * p.sleep) =
            subst (λ n. hosts_sleep r p t ≤ n * (p.retry * p.sleep)) same (hosts_sleep-le r p t) in
          let earlier : now < stop_at = ground (arith, before) in
          let (e, u, runs, after, within) =
            work_until_lem p stop_at hosts rs (now + round_sleep r p t) (on_work r p.retry t)
              (length-on_work r p.retry t ∙ same) (omega arith) (omega arith) in
          (e, u, rw before runs, after, within)
    ]

-- `Stop` returns: if the interval is not 0, and reading the unset result of a failed lookup does not
-- end the program, the thread sees that `running_` is cleared after at most as many rounds as the
-- time of the call needs. It sees it no earlier than the call and, of what it sleeps, no later than a
-- round takes: for each host as many times `sleep` as there are attempts, and the interval.
pub stop_returns :
    (p : Params) (stop_at : ℕ) (rs : List Answers) (t : Table)
    → stop_at ≤ length rs * p.interval
    → (e : ℕ) × (u : Table) × (work_until p stop_at rs 0 t ≡ some (e, u))
      × (stop_at ≤ e)
      × (e ≤ stop_at + longest (length t) p)
stop_returns p stop_at rs t enough =
    work_until_lem p stop_at (length t) rs 0 t refl (omega arith) (omega arith)

-- ===== src/InetAddress/Texts.antt =====
-- Host texts of src/network/base/InetAddress.cpp.
use tmms.Common.{ℕ, ◌≡◌, refl, ap, ◌≢◌, Bool, false, none, some, List, [], ◌∷◌, ◌++◌, arith, ◌==◌}
use tmms.InetAddress.{
  colon, InetAddress, split_colon, or_port_0, get_ip_and_port, set_host, from_host,
  from_host_and_port, to_ip_port,
}

-- No byte of the text is a colon.
abbrev pub NoColon : List ℕ → Type 0
NoColon [] = Unit {0}
NoColon (c ∷ cs) = (c ≢ colon) × NoColon cs

split_colon-append : (h p : List ℕ) → NoColon h → split_colon (h ++ colon ∷ p) ≡ some (h, p)
unfolding split_colon
split_colon-append [] p free = refl
split_colon-append (c ∷ cs) p (ne, free) = simp (other, split_colon-append cs p free)
  where
    other : (c == colon) ≡ false
    other = ground arith

split_colon-none : (h : List ℕ) → NoColon h → split_colon h ≡ none
unfolding split_colon
split_colon-none [] free = refl
split_colon-none (c ∷ cs) (ne, free) = simp (other, split_colon-none cs free)
  where
    other : (c == colon) ≡ false
    other = ground arith

parts_at_colon : (h p : List ℕ) → NoColon h → get_ip_and_port (h ++ colon ∷ p) ≡ (h, p)
unfolding get_ip_and_port
parts_at_colon h p free = ap (or_port_0 (h ++ colon ∷ p)) (split_colon-append h p free)

parts_without_colon : (h : List ℕ) → NoColon h → get_ip_and_port h ≡ (h, 48 ∷ [])
unfolding get_ip_and_port
parts_without_colon h free = ap (or_port_0 h) (split_colon-none h free)

to_ip_port-from_host :
    (h p : List ℕ) (is_v6 : Bool)
    → NoColon h
    → to_ip_port (from_host (h ++ colon ∷ p) is_v6) ≡ h ++ colon ∷ p
unfolding to_ip_port from_host set_host
to_ip_port-from_host h p is_v6 free = ap (λ q. q.0 ++ colon ∷ q.1) (parts_at_colon h p free)

from_host_and_port_loses :
    (h p : List ℕ) (n : ℕ) (is_v6 : Bool)
    → NoColon h
    → (from_host_and_port h n is_v6 ≡ record { addr = h; port_text = 48 ∷ []; is_ipv6 = is_v6 })
      × (from_host_and_port (h ++ colon ∷ p) n is_v6
          ≡ record { addr = h; port_text = p; is_ipv6 = is_v6 })
unfolding from_host_and_port set_host
from_host_and_port_loses h p n is_v6 free =
    (ap with_parts (parts_without_colon h free), ap with_parts (parts_at_colon h p free))
  where
    with_parts : List ℕ × List ℕ → InetAddress
    with_parts q = record { addr = q.0; port_text = q.1; is_ipv6 = is_v6 }

-- For a host text without a colon: an address made of the text `host:port` prints as that text; the
-- constructor that takes a port besides loses it, and the address has port 0 for a mere host, and
-- the port of the text for `host:port`.
pub texts_lem :
    (h p : List ℕ) (n : ℕ) (is_v6 : Bool)
    → NoColon h
    → (to_ip_port (from_host (h ++ colon ∷ p) is_v6) ≡ h ++ colon ∷ p)
      × (from_host_and_port h n is_v6 ≡ record { addr = h; port_text = 48 ∷ []; is_ipv6 = is_v6 })
      × (from_host_and_port (h ++ colon ∷ p) n is_v6
          ≡ record { addr = h; port_text = p; is_ipv6 = is_v6 })
texts_lem h p n is_v6 free =
    let (alone, with_port) = from_host_and_port_loses h p n is_v6 free in
    (to_ip_port-from_host h p is_v6 free, alone, with_port)

-- ===== src/InetAddress/Ranges.antt =====
-- The address ranges of src/network/base/InetAddress.cpp.
use tmms.Common.{
  ℕ, ◌+◌, ◌*◌, ◌<◌, ◌≡◌, refl, ◌∙◌, Bool, ◌&&◌, ◌||◌, not, Option, some, List, arith, leb, ◌==◌,
}
use tmms.InetAddress.{InetAddress, dotted, ipv4, within, is_wan_ip, is_lan_ip}

-- The number of an address with these octets.
abbrev pub quad : ℕ → ℕ → ℕ → ℕ → ℕ
quad a b c d = ((a * 256 + b) * 256 + c) * 256 + d

-- `inet_pton` reads an address in dotted notation.
abbrev pub Reads : (List ℕ → Option ℕ) → ℕ → ℕ → ℕ → ℕ → Type 0
Reads inet_pton a b c d = inet_pton (dotted a b c d) ≡ some (quad a b c d)

-- It reads the bounds of the ranges in the code.
abbrev pub ReadsBounds : (List ℕ → Option ℕ) → Type 0
ReadsBounds f =
    Reads f 10 0 0 0
    × Reads f 10 255 255 255
    × Reads f 172 16 0 0
    × Reads f 172 31 255 255
    × Reads f 192 168 0 0
    × Reads f 192 168 255 255
    × Reads f 127 0 0 0
    × Reads f 127 255 255 255
    × Reads f 169 254 0 0
    × Reads f 169 254 255 255

-- The private ranges by octets: 10/8, 172.16/12 and 192.168/16.
abbrev pub is_private : ℕ → ℕ → Bool
is_private a b = (a == 10) || ((a == 172) && leb 16 b && leb b 31) || ((a == 192) && (b == 168))

-- The number lies in one of the first three ranges.
abbrev in_lan : ℕ → Bool
in_lan ip =
    within (quad 10 0 0 0) (quad 10 255 255 255) ip
    || (within (quad 172 16 0 0) (quad 172 31 255 255) ip
        || within (quad 192 168 0 0) (quad 192 168 255 255) ip)

in_lan-quad : (a b c d : ℕ) → b < 256 → c < 256 → d < 256 → in_lan (quad a b c d) ≡ is_private a b
in_lan-quad a b c d hb hc hd = ground arith

lan_by_bounds :
    (f : List ℕ → Option ℕ) (a : InetAddress) (ip : ℕ)
    → ReadsBounds f
    → f a.addr ≡ some ip
    → is_lan_ip f a ≡ in_lan ip
unfolding is_lan_ip ipv4
lan_by_bounds f a ip (r1, r2, r3, r4, r5, r6, r7, r8, r9, r10) e =
    rw (e, r1, r2, r3, r4, r5, r6) refl

in_wan : ℕ → Bool
in_wan ip = not (
    in_lan ip
    || within (quad 127 0 0 0) (quad 127 255 255 255) ip
    || within (quad 169 254 0 0) (quad 169 254 255 255) ip)

wan_by_bounds :
    (f : List ℕ → Option ℕ) (a : InetAddress) (ip : ℕ)
    → ReadsBounds f
    → f a.addr ≡ some ip
    → is_wan_ip f a ≡ in_wan ip
unfolding is_wan_ip ipv4 in_wan
wan_by_bounds f a ip (r1, r2, r3, r4, r5, r6, r7, r8, r9, r10) e =
    rw (e, r1, r2, r3, r4, r5, r6, r7, r8, r9, r10) (ground arith)

in_wan-quad :
    (a b c d : ℕ)
    → b < 256
    → c < 256
    → d < 256
    → in_wan (quad a b c d) ≡ not (is_private a b || (a == 127) || ((a == 169) && (b == 254)))
unfolding in_wan
in_wan-quad a b c d hb hc hd = ground arith

-- `IsLanlp` of the address a.b.c.d tells whether it lies in 10/8, 172.16/12 or 192.168/16, and
-- `IsWanlp` whether it lies in none of these and neither in 127/8 nor in 169.254/16, if `inet_pton`
-- reads the address and the bounds of these ranges.
pub ranges_lem :
    (f : List ℕ → Option ℕ) (host : InetAddress) (a b c d : ℕ)
    → ReadsBounds f
    → f host.addr ≡ some (quad a b c d)
    → b < 256
    → c < 256
    → d < 256
    → (is_lan_ip f host ≡ is_private a b)
      × (is_wan_ip f host ≡ not (is_private a b || (a == 127) || ((a == 169) && (b == 254))))
ranges_lem f host a b c d r e hb hc hd = (
  lan_by_bounds f host (quad a b c d) r e ∙ in_lan-quad a b c d hb hc hd,
  wan_by_bounds f host (quad a b c d) r e ∙ in_wan-quad a b c d hb hc hd,
)

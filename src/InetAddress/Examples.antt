-- ===== src/InetAddress/Examples.antt =====
-- Runs of the addresses and examples of their theorems.
use tmms.Common.{ℕ, refl, false, Option, none, some, List, [], ◌∷◌, arith, if◌then◌else◌}
use tmms.StringUtils.{same}
use tmms.InetAddress.{InetAddress, digits, dotted}
use tmms.InetAddress.Texts.{NoColon}
use tmms.InetAddress.Ranges.{Reads, ReadsBounds, quad}

-- `h` and `80`.
abbrev h : List ℕ
h = 104 ∷ []

abbrev eighty : List ℕ
eighty = 56 ∷ 48 ∷ []

h-NoColon : NoColon h
h-NoColon = (omega arith, _)

-- `inet_pton` on a table of addresses.
abbrev from_table : List (List ℕ × ℕ) → List ℕ → Option ℕ
from_table [] text = none
from_table ((known, n) ∷ rows) text = if same known text then some n else from_table rows text

abbrev row : ℕ → ℕ → ℕ → ℕ → List ℕ × ℕ
row a b c d = (dotted a b c d, quad a b c d)

abbrev table : List (List ℕ × ℕ)
table =
    row 10 0 0 0
    ∷ row 10 255 255 255
    ∷ row 172 16 0 0
    ∷ row 172 31 255 255
    ∷ row 192 168 0 0
    ∷ row 192 168 255 255
    ∷ row 127 0 0 0
    ∷ row 127 255 255 255
    ∷ row 169 254 0 0
    ∷ row 169 254 255 255
    ∷ row 172 20 1 2
    ∷ []

table-ReadsBounds : ReadsBounds (from_table table)
unfolding same digits
table-ReadsBounds = (refl, refl, refl, refl, refl, refl, refl, refl, refl, refl)

home_read : Reads (from_table table) 172 20 1 2
unfolding same digits
home_read = refl

abbrev home : InetAddress
home = record { addr = dotted 172 20 1 2; port_text = eighty; is_ipv6 = false }

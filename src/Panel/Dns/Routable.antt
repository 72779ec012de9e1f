-- ===== src/Panel/Dns/Routable.antt =====
-- The blocks of addresses that publicAddress of panel/internal/dnsreconcile/service.go leaves out.

use ladder_airport.Base.{ℕ, ◌+◌, ◌-◌, ◌*◌, ◌^◌, ◌≤◌, ◌<◌, ◌≡◌, ◌≢◌, ◌⊎◌, true, false, arith}
use ladder_airport.Panel.Dns.Desired.{Address, public_address}

-- Not in the block of addresses from `from` on, of a size.
abbrev Avoids : ℕ → ℕ → ℕ → Type 0
Avoids from size b = (b < from) ⊎ (from + size ≤ b)

-- Not 10/8, 100.64/10, 127/8, 169.254/16, 172.16/12, 192.168/16, 224/4, 0.0.0.0 or the broadcast.
pub IsRoutableFour : ℕ → Type 0
IsRoutableFour b =
    Avoids (10 * 2 ^ 24) (2 ^ 24) b
    × Avoids (100 * 2 ^ 24 + 64 * 2 ^ 16) (2 ^ 22) b
    × Avoids (127 * 2 ^ 24) (2 ^ 24) b
    × Avoids (169 * 2 ^ 24 + 254 * 2 ^ 16) (2 ^ 16) b
    × Avoids (172 * 2 ^ 24 + 16 * 2 ^ 16) (2 ^ 20) b
    × Avoids (192 * 2 ^ 24 + 168 * 2 ^ 16) (2 ^ 16) b
    × Avoids (224 * 2 ^ 24) (2 ^ 28) b
    × (b ≢ 0)
    × (b ≢ 2 ^ 32 - 1)

-- Not ::, ::1, fc00::/7, fe80::/10 or ff00::/8.
pub IsRoutableSix : ℕ → Type 0
IsRoutableSix b =
    (b ≢ 0)
    × (b ≢ 1)
    × Avoids (0xfc * 2 ^ 120) (2 ^ 121) b
    × Avoids (0xfe80 * 2 ^ 112) (2 ^ 118) b
    × Avoids (0xff * 2 ^ 120) (2 ^ 120) b

pub public_address-four :
    (x : Address) → x.is_four ≡ true → public_address x ≡ true → IsRoutableFour x.bits
unfolding public_address IsRoutableFour
public_address-four x four public = ground (arith, four, public)

pub public_address-six :
    (x : Address) → x.is_four ≡ false → public_address x ≡ true → IsRoutableSix x.bits
unfolding public_address IsRoutableSix
public_address-six x six public = ground (arith, six, public)

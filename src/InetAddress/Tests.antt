-- ===== src/InetAddress/Tests.antt =====
-- Addresses on concrete input, and the theorems on them.
use http_nest.Prelude.{
  ℕ, ◌+◌, ◌*◌, ◌^◌, ◌≡◌, refl, true, false, Option, none, some, Bytes, bytes_eq, if◌then◌else◌,
  codes,
}
use http_nest.InetAddress.{InetAddress, ipv4, in_range, is_lan_ip, is_wan_ip}

-- `inet_pton` on the addresses of these tests.
abbrev known : Bytes → Option ℕ
known ip =
    if bytes_eq ip (codes "10.0.0.0")
    then some (10 * 256 ^ 3)
    else if bytes_eq ip (codes "10.255.255.255")
    then some (11 * 256 ^ 3 + 0)
    else if bytes_eq ip (codes "10.1.2.3")
    then some (10 * 256 ^ 3 + 66051)
    else none

abbrev local : InetAddress
local = record { addr = codes "10.1.2.3"; port = codes "80"; is_ipv6 = false }

abbrev sixth : InetAddress
sixth = record { addr = codes "::1"; port = codes "80"; is_ipv6 = true }

lan : (is_lan_ip known local ≡ true) × (is_wan_ip known local ≡ false)
unfolding is_lan_ip is_wan_ip in_range ipv4 bytes_eq
lan = (refl, refl)

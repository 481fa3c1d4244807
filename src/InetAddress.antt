-- ===== src/InetAddress.antt =====
-- InetAddress: src/network/base/InetAddress.h and InetAddress.cpp. `inet_pton` for IPv4, with the
-- number in host order, is a parameter.
pub mod Port
pub mod Host
mod Tests
use http_nest.Prelude.{
  ℕ, ◌+◌, ◌*◌, ◌%◌, ◌^◌, Bool, true, false, not, List, [], ◌∷◌, ◌++◌, Option, none, some, take,
  drop, leb, ◌==◌, ◌&&◌, ◌||◌, if◌then◌else◌, Bytes, bytes_eq, codes,
}
use http_nest.Prelude.Int.{to_word}
use http_nest.Strings.Find.{find_first_of}
use http_nest.Http.Numbers.{atoi}
use http_nest.Http.Request.Print.{decimal}

pub record InetAddress : Type 0 where
  pub addr : Bytes
  pub port : Bytes
  pub is_ipv6 : Bool

-- `GetIpAndPort`: without a colon the port is left as it was.
unfoldable pub get_ip_and_port : Bytes → Bytes → Bytes × Bytes
get_ip_and_port host port = elim (find_first_of (b':' ∷ []) host) [
  | some at ↦ (take at host, drop (at + 1) host)
  | none ↦ (host, port)
]

-- `std::to_string` of a `uint16_t`, which has five digits at most.
unfoldable pub port_text : ℕ → Bytes
port_text port = decimal 5 port

unfoldable pub new_inet_address : Bytes → ℕ → Bool → InetAddress
new_inet_address ip port v6 = record { addr = ip; port = port_text port; is_ipv6 = v6 }

-- The constructor with a host.
unfoldable pub from_host : Bytes → Bool → InetAddress
from_host host v6 =
    let (ip, port) = get_ip_and_port host [] in record { addr = ip; port = port; is_ipv6 = v6 }

unfoldable pub set_host : InetAddress → Bytes → InetAddress
set_host a host =
    let (ip, port) = get_ip_and_port host a.port in record a { addr = ip; port = port }

unfoldable pub set_addr : InetAddress → Bytes → InetAddress
set_addr a addr = record a { addr = addr }

unfoldable pub set_port : InetAddress → ℕ → InetAddress
set_port a port = record a { port = port_text port }

unfoldable pub set_is_ipv6 : InetAddress → Bool → InetAddress
set_is_ipv6 a v6 = record a { is_ipv6 = v6 }

unfoldable pub to_ip_port : InetAddress → Bytes
to_ip_port a = a.addr ++ (b':' ∷ a.port)

-- `port()`: an `int` as a `uint16_t`.
unfoldable pub port_number : InetAddress → ℕ
port_number a = to_word (2 ^ 16) (atoi a.port)

abbrev inaddr_loopback : ℕ
inaddr_loopback = 127 * 256 ^ 3 + 1

module _ (inet_pton : Bytes → Option ℕ) where
  -- An address that `inet_pton` refuses stays zero.
  unfoldable pub ipv4 : Bytes → ℕ
  ipv4 ip = elim (inet_pton ip) [ some n ↦ n | none ↦ 0 ]

  unfoldable pub in_range : ℕ → Bytes → Bytes → Bool
  in_range ip first last = leb (ipv4 first) ip && leb ip (ipv4 last)

  unfoldable pub is_lan_ip : InetAddress → Bool
  is_lan_ip a =
      let ip = ipv4 a.addr in
      in_range ip (codes "10.0.0.0") (codes "10.255.255.255")
      || in_range ip (codes "172.16.0.0") (codes "172.31.255.255")
      || in_range ip (codes "192.168.0.0") (codes "192.168.255.255")

  unfoldable pub is_wan_ip : InetAddress → Bool
  is_wan_ip a =
      let ip = ipv4 a.addr in
      not (in_range ip (codes "10.0.0.0") (codes "10.255.255.255"))
      && (not (in_range ip (codes "172.16.0.0") (codes "172.31.255.255"))
          && (not (in_range ip (codes "192.168.0.0") (codes "192.168.255.255"))
              && not (ip == inaddr_loopback)))

unfoldable pub is_loopback_ip : InetAddress → Bool
is_loopback_ip a = bytes_eq a.addr (codes "127.0.0.1")

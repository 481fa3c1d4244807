-- ===== src/Http/Client/Tests.antt =====
-- `ParseUrl` on concrete URLs, and the theorem on it.
use http_nest.Prelude.{◌≡◌, refl, arith, true, false, [], ◌∷◌, codes}
use http_nest.InetAddress.{set_addr, set_port}
use http_nest.Http.Request.{new_request}
use http_nest.Http.Client.{Target, read_url, take_ipv4}
use http_nest.Http.Client.Port.{read_url-port_zero}

abbrev start : Target
start = record {
  request = new_request true;
  address = record { addr = []; port = []; is_ipv6 = false };
}

-- An address of IPv6 is passed over.
first_of_ipv4 :
    (take_ipv4
      (record { addr = codes "::1"; port = []; is_ipv6 = true }
        ∷ record { addr = codes "10.0.0.1"; port = []; is_ipv6 = false }
        ∷ [])
      start.address).addr
    ≡ codes "10.0.0.1"
unfolding take_ipv4 set_addr
first_of_ipv4 = refl

read_url-port_zero_example :
    (read_url start (codes "http://abc:8080/x")).address
    ≡ set_port (set_addr start.address (codes "abc")) 0
read_url-port_zero_example =
    read_url-port_zero start (codes "abc") (codes "8080") (codes "x") (omega arith) refl refl

-- ===== src/DnsService/Tests.antt =====
-- Runs of the service, and witnesses.
use http_nest.Prelude.{ℕ, ◌≡◌, refl, false, [], ◌∷◌, some, if◌then◌else◌, Bytes, bytes_eq, ◌==◌}
use http_nest.Prelude.Int.{negsuc}
use http_nest.InetAddress.{InetAddress}
use http_nest.DnsService.{
  Addresses, Hosts, find, put, add_host, get_host_address, get_host_address_at, round, attempts,
  update_host,
}
use http_nest.DnsService.Refresh.{known, listed, first_found, known-round, get_host_address_at-some}

abbrev one : InetAddress
one = record { addr = 49 ∷ []; port = 48 ∷ []; is_ipv6 = false }

abbrev two : InetAddress
two = record { addr = 50 ∷ []; port = 48 ∷ []; is_ipv6 = false }

abbrev a_host : Bytes
a_host = 97 ∷ []

abbrev hosts : Hosts
hosts = (a_host, one ∷ []) ∷ []

-- A resolver that finds something at the second attempt.
abbrev resolve : Bytes → ℕ → Addresses
resolve host i = if i == 1 then two ∷ [] else []

round_runs : round resolve 3 hosts hosts ≡ (a_host, two ∷ []) ∷ []
unfolding round attempts update_host put bytes_eq
round_runs = refl

add_host_runs : get_host_address (98 ∷ []) (add_host (98 ∷ []) hosts) ≡ []
unfolding get_host_address add_host find put bytes_eq
add_host_runs = refl

known-round_example : known a_host (round resolve 3 hosts hosts) ≡ (
    if listed a_host hosts
    then first_found (resolve a_host) 3 0 (known a_host hosts)
    else known a_host hosts)
known-round_example = known-round resolve 3 a_host hosts hosts

get_host_address_at-some_example :
    (b : InetAddress) × (get_host_address_at a_host (negsuc 4) hosts ≡ some b)
unfolding find bytes_eq
get_host_address_at-some_example = get_host_address_at-some a_host (negsuc 4) hosts one [] refl

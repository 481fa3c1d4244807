-- ===== src/DnsService.antt =====
-- DnsService: src/network/DnsService.h and DnsService.cpp, with one thread at a time inside the mutex.
-- The resolver is a parameter: the addresses that `GetHostInfo` finds for a host at an attempt. The
-- pauses are not modelled.
pub mod Refresh
mod Tests
use http_nest.Prelude.{
  ℕ, zero, suc, ◌+◌, ◌%◌, ◌^◌, Bool, true, false, List, [], ◌∷◌, ◌++◌, map, Option, none, some,
  if◌then◌else◌, length, get_elem?, Bytes, bytes_eq,
}
use http_nest.Prelude.Int.{ℤ, to_word}
use http_nest.InetAddress.{InetAddress}

abbrev pub Addresses : Type 0
Addresses = List InetAddress

abbrev pub Hosts : Type 0
Hosts = List (Bytes × Addresses)

unfoldable pub find : Bytes → Hosts → Option Addresses
find host [] = none
find host ((key, list) ∷ hosts) =
    let rest = find host hosts in if bytes_eq key host then some list else rest

-- `hostsInfo_[host] = list`.
unfoldable pub put : Bytes → Addresses → Hosts → Hosts
put host list [] = (host, list) ∷ []
put host list ((key, old) ∷ hosts) =
    let rest = put host list hosts in
    if bytes_eq key host then (key, list) ∷ hosts else (key, old) ∷ rest

unfoldable pub add_host : Bytes → Hosts → Hosts
add_host host hosts = elim (find host hosts) [ some _ ↦ hosts | none ↦ put host [] hosts ]

unfoldable pub get_host_address : Bytes → Hosts → Addresses
get_host_address host hosts = elim (find host hosts) [ some list ↦ list | none ↦ [] ]

-- An element of the list, at an `int` index that is made a `size_t`.
unfoldable pub pick : ℤ → Addresses → Option InetAddress
pick index [] = none
pick index (a ∷ list) = get_elem? (a ∷ list) (to_word (2 ^ 64) index % length (a ∷ list))

unfoldable pub get_host_address_at : Bytes → ℤ → Hosts → Option InetAddress
get_host_address_at host index hosts = elim (find host hosts) [
  | some list ↦ pick index list
  | none ↦ none
]

-- `UpdateHost`, without the old list that it hands back.
unfoldable pub update_host : Bytes → Addresses → Hosts → Hosts
update_host host list hosts = put host list hosts

-- The attempts that are left for a host: the first list that is not empty is stored.
unfoldable pub attempts : (ℕ → Addresses) → ℕ → ℕ → Bytes → Hosts → Hosts
attempts resolve zero i host hosts = hosts
attempts resolve (suc retry) i host hosts = elim (resolve i) [
  | [] ↦ attempts resolve retry (i + 1) host hosts
  | a ∷ list ↦ update_host host (a ∷ list) hosts
]

-- A round of `OnWork` over the hosts that `GetHosts` copied.
unfoldable pub round : (Bytes → ℕ → Addresses) → ℕ → Hosts → Hosts → Hosts
round resolve retry [] hosts = hosts
round resolve retry ((host, list) ∷ copied) hosts =
    round resolve retry copied (attempts (resolve host) retry 0 host hosts)

-- ===== src/Http/Client.antt =====
-- `ParseUrl` of src/http/HttpClient.cpp. The table of hosts that DnsService keeps and the query that it
-- makes are parameters.
pub mod Port
mod Tests
use http_nest.Prelude.{
  ℕ, ◌+◌, ◌^◌, Bool, true, false, List, [], ◌∷◌, ◌++◌, Option, none, some, length, take, drop, ltb,
  if◌then◌else◌, Bytes, codes,
}
use http_nest.Prelude.Int.{to_word}
use http_nest.Strings.Find.{find_first_of}
use http_nest.Http.Numbers.{atoi}
use http_nest.Http.Request.{HttpRequest, add_header, set_path, set_query}
use http_nest.InetAddress.{InetAddress, set_addr, set_port}

-- `request_` and `addr_`.
pub record Target : Type 0 where
  pub request : HttpRequest
  pub address : InetAddress

-- The loops over a list of addresses: the first one that is not IPv6 is taken.
unfoldable pub take_ipv4 : List InetAddress → InetAddress → InetAddress
take_ipv4 [] a = a
take_ipv4 (l ∷ list) a =
    let later = take_ipv4 list a in if l.is_ipv6 then later else set_addr a l.addr

-- The path and the query of the request.
unfoldable pub put_path : HttpRequest → Bytes → HttpRequest
put_path r path = elim (find_first_of (b'?' ∷ []) path) [
  | some at ↦ set_query (set_path r (take at path)) (drop (at + 1) path)
  | none ↦ set_path r path
]

-- The address of the domain. The text of the port is cut from the whole URL.
unfoldable pub put_domain : InetAddress → Bytes → Bytes → InetAddress
put_domain a url domain = elim (find_first_of (b':' ∷ []) domain) [
  | some at ↦ set_port (set_addr a (take at domain)) (to_word (2 ^ 16) (atoi (drop (at + 1) url)))
  | none ↦ set_port (set_addr a domain) 80
]

-- What the URL alone says.
unfoldable pub read_url : Target → Bytes → Target
read_url t url = elim (find_first_of (b'/' ∷ []) (drop 7 url)) [
  | some at ↦
      let domain = take at (drop 7 url) in
      record {
        request = add_header (put_path t.request (drop at (drop 7 url))) (codes "Host") domain;
        address = put_domain t.address url domain;
      }
  | none ↦ record {
    request = add_header (set_path t.request (b'/' ∷ [])) (codes "Host") (drop 7 url);
    address = set_port (set_addr t.address (drop 7 url)) 80;
  }
]

module _ (known query : Bytes → List InetAddress) where
  unfoldable pub resolve : InetAddress → InetAddress
  resolve a = elim (known a.addr) [
    | [] ↦ take_ipv4 (query a.addr) a
    | l ∷ list ↦ take_ipv4 (l ∷ list) a
  ]

  unfoldable pub parse_url : Target → Bytes → Bool × Target
  parse_url t url =
      if ltb 7 (length url)
      then (true, record (read_url t url) { address = resolve (read_url t url).address })
      else (false, t)

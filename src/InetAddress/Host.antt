-- ===== src/InetAddress/Host.antt =====
-- The text of an address with its port.
use http_nest.Prelude.{
  ◌+◌, ◌≡◌, refl, arith, true, [], ◌∷◌, ◌++◌, length, drop, take-append, drop-append, length-append,
  append_assoc, sym, ap, ◌∙◌, Bytes,
}
use http_nest.Strings.Join.{lacks, find_first_of-some}
use http_nest.InetAddress.{InetAddress, get_ip_and_port, set_host, to_ip_port}

get_ip_and_port-colon :
    (x rest port : Bytes)
    → lacks b':' x ≡ true
    → get_ip_and_port (x ++ (b':' ∷ rest)) port ≡ (x, rest)
unfolding get_ip_and_port
get_ip_and_port-colon x rest port h =
    rw
      (
        find_first_of-some b':' x rest h,
        get_ip_and_port,
        take-append (length x) x (b':' ∷ rest) refl,
        behind,
      )
      refl
  where
    behind : drop (length x + 1) (x ++ (b':' ∷ rest)) ≡ rest
    behind =
        ap (drop (length x + 1)) (sym (append_assoc x (b':' ∷ []) rest))
        ∙ drop-append (length x + 1) (x ++ b':' ∷ []) rest
            (omega (arith, length-append x (b':' ∷ [])))

-- `SetHost` reads an address without a colon, as IPv4 has it, back from its own text.
pub set_host-to_ip_port :
    (a b : InetAddress)
    → lacks b':' a.addr ≡ true
    → set_host b (to_ip_port a) ≡ record b { addr = a.addr; port = a.port }
unfolding set_host to_ip_port
set_host-to_ip_port a b h = rw (get_ip_and_port-colon a.addr a.port b.port h) refl

-- An address with a colon, as IPv6 has it, is cut at its first colon: the rest of it becomes the
-- front of the port.
pub set_host-first_colon :
    (a b : InetAddress) (x y : Bytes)
    → lacks b':' x ≡ true
    → a.addr ≡ x ++ (b':' ∷ y)
    → set_host b (to_ip_port a) ≡ record b { addr = x; port = y ++ (b':' ∷ a.port) }
unfolding set_host to_ip_port
set_host-first_colon a b x y h e =
    rw (e, append_assoc, get_ip_and_port-colon x (y ++ (b':' ∷ a.port)) b.port h) refl

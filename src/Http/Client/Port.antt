-- ===== src/Http/Client/Port.antt =====
-- The port of a URL.
use http_nest.Prelude.{
  ℕ, zero, suc, ◌+◌, ◌^◌, ◌<◌, ◌≡◌, ◌∙◌, refl, ap, arith, true, ◌∷◌, ◌++◌, length, drop,
  take-append, Bytes, codes,
}
use http_nest.Prelude.Int.{pos, to_word, to_int32}
use http_nest.Strings.Join.{lacks, find_first_of-some}
use http_nest.Http.Utils.{is_space}
use http_nest.Http.Numbers.{is_digit, decimal_from, skip_space, take_sign, to_long, atoi}
use http_nest.InetAddress.{InetAddress, set_addr, set_port}
use http_nest.Http.Client.{Target, put_domain, read_url}

-- `atoi` of a tail of the scheme is zero.
atoi_lem : (k : ℕ) (s : Bytes) → k < 6 → atoi (drop (k + 1) (codes "http://" ++ s)) ≡ pos 0
unfolding atoi skip_space take_sign decimal_from is_digit is_space to_long to_int32
atoi_lem zero s h = refl
atoi_lem (suc zero) s h = refl
atoi_lem (suc (suc zero)) s h = refl
atoi_lem (suc (suc (suc zero))) s h = refl
atoi_lem (suc (suc (suc (suc zero)))) s h = refl
atoi_lem (suc (suc (suc (suc (suc zero))))) s h = refl
atoi_lem (suc (suc (suc (suc (suc (suc k)))))) s h = absurd (omega arith)

put_domain-colon :
    (a : InetAddress) (url host port : Bytes)
    → lacks b':' host ≡ true
    → put_domain a url (host ++ (b':' ∷ port))
      ≡ set_port (set_addr a host) (to_word (2 ^ 16) (atoi (drop (length host + 1) url)))
unfolding put_domain
put_domain-colon a url host port h =
    rw
      (
        find_first_of-some b':' host port h,
        put_domain,
        take-append (length host) host (b':' ∷ port) refl,
      )
      refl

read_url-slash :
    (t : Target) (domain rest : Bytes)
    → lacks b'/' domain ≡ true
    → (read_url t (codes "http://" ++ (domain ++ (b'/' ∷ rest)))).address
      ≡ put_domain t.address (codes "http://" ++ (domain ++ (b'/' ∷ rest))) domain
unfolding read_url
read_url-slash t domain rest h =
    rw (find_first_of-some b'/' domain rest h, read_url)
      (ap (put_domain t.address (codes "http://" ++ (domain ++ (b'/' ∷ rest))))
        (take-append (length domain) domain (b'/' ∷ rest) refl))

-- A URL "http://host:port/..." whose host has fewer than six characters gives the address the port 0,
-- whatever port it names.
pub read_url-port_zero :
    (t : Target) (host port rest : Bytes)
    → length host < 6
    → lacks b':' host ≡ true
    → lacks b'/' (host ++ (b':' ∷ port)) ≡ true
    → (read_url t (codes "http://" ++ ((host ++ (b':' ∷ port)) ++ (b'/' ∷ rest)))).address
      ≡ set_port (set_addr t.address host) 0
read_url-port_zero t host port rest short no_colon no_slash =
    read_url-slash t (host ++ (b':' ∷ port)) rest no_slash
    ∙ put_domain-colon t.address (codes "http://" ++ ((host ++ (b':' ∷ port)) ++ (b'/' ∷ rest)))
        host port no_colon
    ∙ ap (λ z. set_port (set_addr t.address host) (to_word (2 ^ 16) z))
        (atoi_lem (length host) ((host ++ (b':' ∷ port)) ++ (b'/' ∷ rest)) short)

-- ===== src/DnsService/Refresh.antt =====
-- What the service knows of a host after a round, and what it gives out.
use native.Mathlib.Nat.{mod-lt, zero-lt-suc}
use http_nest.Prelude.{
  ℕ, zero, suc, ◌+◌, ◌%◌, ◌^◌, ◌<◌, ◌≡◌, ◌∙◌, refl, ap, arith, inl, inr, Bool, true, false, [], ◌∷◌,
  none, some, if◌then◌else◌, Bool-cases, length, get_elem?, Bytes, bytes_eq, bytes_eq_iff,
}
use http_nest.Prelude.Int.{ℤ, to_word}
use http_nest.InetAddress.{InetAddress}
use http_nest.DnsService.{
  Addresses, Hosts, find, put, pick, get_host_address_at, update_host, attempts, round,
}

abbrev pub or_else : Addresses → Addresses → Addresses
or_else [] before = before
or_else (a ∷ list) before = a ∷ list

-- The first list that is not empty among these attempts, or else the list before.
unfoldable pub first_found : (ℕ → Addresses) → ℕ → ℕ → Addresses → Addresses
first_found resolve zero i before = before
first_found resolve (suc retry) i before =
    or_else (resolve i) (first_found resolve retry (i + 1) before)

abbrev pub known : Bytes → Hosts → Addresses
known host hosts = elim (find host hosts) [ some list ↦ list | none ↦ [] ]

find-put :
    (host other : Bytes) (list : Addresses) (hosts : Hosts)
    → find other (put host list hosts)
      ≡ (if bytes_eq host other then some list else find other hosts)
unfolding find put
find-put host other list [] = refl
find-put host other list ((key, old) ∷ hosts) = ground (
  arith,
  bytes_eq_iff host other,
  bytes_eq_iff key host,
  bytes_eq_iff key other,
  find-put host other list hosts,
)

known-put :
    (host other : Bytes) (list : Addresses) (hosts : Hosts)
    → known other (put host list hosts) ≡ (if bytes_eq host other then list else known other hosts)
known-put host other list hosts = elim (Bool-cases (bytes_eq host other)) [
  | inl e ↦ rw (e, known, find-put host other list hosts, e) refl
  | inr e ↦ rw (e, known, find-put host other list hosts, e) refl
]

-- What the attempts for a host leave of each host.
known-attempts :
    (resolve : ℕ → Addresses) (retry i : ℕ) (host other : Bytes) (hosts : Hosts)
    → known other (attempts resolve retry i host hosts) ≡ (
        if bytes_eq host other
        then first_found resolve retry i (known other hosts)
        else known other hosts)
unfolding attempts first_found update_host
known-attempts resolve zero i host other hosts = elim (Bool-cases (bytes_eq host other)) [
  | inl e ↦ rw e refl
  | inr e ↦ rw e refl
]
known-attempts resolve (suc retry) i host other hosts =
    answered (resolve i) (known-attempts resolve retry (i + 1) host other hosts)
  where
    answered :
        (found : Addresses)
        → known other (attempts resolve retry (i + 1) host hosts) ≡ (
            if bytes_eq host other
            then first_found resolve retry (i + 1) (known other hosts)
            else known other hosts)
        → known other (elim found [
          | [] ↦ attempts resolve retry (i + 1) host hosts
          | a ∷ list ↦ put host (a ∷ list) hosts
        ])
          ≡ (if bytes_eq host other
              then or_else found (first_found resolve retry (i + 1) (known other hosts))
              else known other hosts)
    answered [] h = h
    answered (a ∷ list) h = known-put host other (a ∷ list) hosts

first_found_again :
    (resolve : ℕ → Addresses) (retry i : ℕ) (before : Addresses)
    → first_found resolve retry i (first_found resolve retry i before)
      ≡ first_found resolve retry i before
unfolding first_found
first_found_again resolve zero i before = refl
first_found_again resolve (suc retry) i before =
    again (resolve i) (first_found_again resolve retry (i + 1) before)
  where
    again :
        (found : Addresses)
        → first_found resolve retry (i + 1) (first_found resolve retry (i + 1) before)
          ≡ first_found resolve retry (i + 1) before
        → or_else found (
            first_found resolve retry
              (i + 1)
              (or_else found (first_found resolve retry (i + 1) before)))
          ≡ or_else found (first_found resolve retry (i + 1) before)
    again [] h = h
    again (a ∷ list) h = refl

unfoldable pub listed : Bytes → Hosts → Bool
listed host [] = false
listed host ((key, list) ∷ hosts) =
    let rest = listed host hosts in if bytes_eq key host then true else rest

merge :
    (b m : Bool) (before after : Addresses) (k : Addresses → Addresses)
    → k (k before) ≡ k before
    → after ≡ (if b then k before else before)
    → (if m then k after else after) ≡ (if (if b then true else m) then k before else before)
merge true true before after k again e = ap k e ∙ again
merge true false before after k again e = e
merge false true before after k again e = ap k e
merge false false before after k again e = e

same_host :
    (resolve : Bytes → ℕ → Addresses) (retry : ℕ) (host key : Bytes) (before : Addresses)
    → (if bytes_eq key host then first_found (resolve key) retry 0 before else before)
      ≡ (if bytes_eq key host then first_found (resolve host) retry 0 before else before)
same_host resolve retry host key before = elim (Bool-cases (bytes_eq key host)) [
  | inl e ↦ rw ((bytes_eq_iff key host).0 e) refl
  | inr e ↦ rw e refl
]

-- After a round, the addresses of a host that was among those copied are those of the first attempt
-- that found any, and unchanged if none did; those of other hosts are unchanged.
pub known-round :
    (resolve : Bytes → ℕ → Addresses) (retry : ℕ) (host : Bytes) (copied hosts : Hosts)
    → known host (round resolve retry copied hosts) ≡ (
        if listed host copied
        then first_found (resolve host) retry 0 (known host hosts)
        else known host hosts)
unfolding round listed
known-round resolve retry host [] hosts = refl
known-round resolve retry host ((key, list) ∷ copied) hosts =
    known-round resolve retry host copied (attempts (resolve key) retry 0 key hosts)
    ∙ merge (bytes_eq key host) (listed host copied) (known host hosts) _
        (first_found (resolve host) retry 0)
        (first_found_again (resolve host) retry 0 (known host hosts))
        (known-attempts (resolve key) retry 0 key host hosts
          ∙ same_host resolve retry host key (known host hosts))

in_range :
    (i : ℕ) (list : Addresses) → i < length list → (a : InetAddress) × (get_elem? list i ≡ some a)
in_range i [] h = absurd (omega arith)
in_range zero (a ∷ list) h = (a, refl)
in_range (suc i) (a ∷ list) h = in_range i list (omega arith)

-- A host with addresses has one at every index, a negative one included.
pub get_host_address_at-some :
    (host : Bytes) (index : ℤ) (hosts : Hosts) (a : InetAddress) (list : Addresses)
    → find host hosts ≡ some (a ∷ list)
    → (b : InetAddress) × (get_host_address_at host index hosts ≡ some b)
unfolding get_host_address_at pick
get_host_address_at-some host index hosts a list e =
    rw (e, get_host_address_at)
      (in_range (to_word (2 ^ 64) index % length (a ∷ list)) (a ∷ list)
        (mod-lt (to_word (2 ^ 64) index) (zero-lt-suc (length list))))

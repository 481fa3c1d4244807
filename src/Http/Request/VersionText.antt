-- ===== src/Http/Request/VersionText.antt =====
-- The version that `SetVersion` reads.
use http_nest.Prelude.{
  ℕ, ◌≡◌, refl, ap, true, some, length, take, get_elem?, length-take, ◌==◌, if◌then◌else◌, arith,
  Bytes, bytes_eq, bytes_eq_iff, codes, Bool-cases, inl, inr,
}
use http_nest.Http.Types.{Version}
use http_nest.Http.Request.{prefix_differs, parse_version}

-- Six characters are never the seven of "HTTP/1.".
prefix_differs_lem : (v : Bytes) → prefix_differs v ≡ true
unfolding prefix_differs
prefix_differs_lem v = elim (Bool-cases (bytes_eq (take 6 v) (codes "HTTP/1."))) [
  | inl e ↦ absurd (omega (arith, ap length ((bytes_eq_iff _ _).0 e), length-take {0} 6 v))
  | inr e ↦ rw e refl
]

-- A text of eight characters that ends in '1' is read as HTTP/1.1, one that ends in '0' as HTTP/1.0,
-- and any other as unknown, whatever stands in front.
pub parse_version-last :
    (v : Bytes) (c : ℕ)
    → length v ≡ 8
    → get_elem? v 7 ≡ some c
    → parse_version v ≡ (
        if c == b'1' then Version.http11 else if c == b'0' then Version.http10 else Version.unknown)
unfolding parse_version
parse_version-last v c l last = rw (l, prefix_differs_lem v, last)

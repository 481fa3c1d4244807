-- ===== src/Http/Utils/Status.antt =====
-- The status tables agree with the enumeration and with one another.
use http_nest.Prelude.{
  ℕ, ◌≡◌, ◌↔◌, refl, sym, ap, ◌∙◌, Bool, true, false, List, [], ◌∷◌, ◌==◌, ◌&&◌, arith, Bytes,
  bytes_eq, bytes_eq_iff, codes,
}
use http_nest.Prelude.Int.{ℤ, pos, negsuc}
use http_nest.Http.Types.{HttpStatusCode, status_value}
use http_nest.Http.Utils.Tables.{lookup_or, status_codes, status_messages}
use http_nest.Http.Utils.{parse_status_code, parse_status_message}

-- `ParseStatusCode` finds each constant of the enumeration by its value.
pub parse_status_code-status_value :
    (s : HttpStatusCode) → parse_status_code (pos (status_value s)) ≡ s
unfolding parse_status_code status_value lookup_or status_codes
parse_status_code-status_value HttpStatusCode.unknown = refl
parse_status_code-status_value _ = refl

is_unknown : HttpStatusCode → Bool
is_unknown s = status_value s == 0

abbrev same : Bool → Bool → Bool
same true b = b
same false true = false
same false false = true

-- The same keys in the same order, and "unknown" in the same places.
agree : List (ℕ × HttpStatusCode) → List (ℕ × Bytes) → Bool
agree [] [] = true
agree ((k, s) ∷ t) ((j, m) ∷ u) =
    k == j && (same (is_unknown s) (bytes_eq m (codes "unknown")) && agree t u)
agree _ _ = false

agree_tables : agree status_codes status_messages ≡ true
unfolding agree is_unknown bytes_eq status_value status_codes status_messages
agree_tables = refl

agree-lookup_or :
    (n : ℕ) (t : List (ℕ × HttpStatusCode)) (u : List (ℕ × Bytes))
    → agree t u ≡ true
    → is_unknown (lookup_or n t HttpStatusCode.unknown)
      ≡ bytes_eq (lookup_or n u (codes "unknown")) (codes "unknown")
unfolding agree lookup_or
agree-lookup_or n [] [] h = unfold is_unknown status_value bytes_eq in refl
agree-lookup_or n ((k, s) ∷ t) ((j, m) ∷ u) h = ground (arith, agree-lookup_or n t u)
agree-lookup_or n [] (e ∷ u) h = cc
agree-lookup_or n (e ∷ t) [] h = cc

is_unknown_lem : (s : HttpStatusCode) → is_unknown s ≡ true → s ≡ HttpStatusCode.unknown
unfolding is_unknown status_value
is_unknown_lem HttpStatusCode.unknown h = refl
is_unknown_lem _ h = cc

-- A code has the message "unknown" exactly when `ParseStatusCode` does not know it, for every value
-- of the argument.
pub parse_status_message-eq-unknown :
    (z : ℤ)
    → (parse_status_message z ≡ codes "unknown") ↔ (parse_status_code z ≡ HttpStatusCode.unknown)
unfolding parse_status_code parse_status_message
parse_status_message-eq-unknown (negsuc n) = (λ _. refl, λ _. refl)
parse_status_message-eq-unknown (pos n) =
    let e = agree-lookup_or n status_codes status_messages agree_tables in
    let i = bytes_eq_iff (lookup_or n status_messages (codes "unknown")) (codes "unknown") in
    (λ h. is_unknown_lem _ (e ∙ i.1 h), λ h. i.0 (sym e ∙ ap is_unknown h ∙ zero_unknown))
  where
    zero_unknown : is_unknown HttpStatusCode.unknown ≡ true
    zero_unknown = unfold is_unknown status_value in refl

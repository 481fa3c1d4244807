-- ===== src/Http/Outcome.antt =====
-- What a piece of the HTTP code does: it returns, or it does something that C++ leaves undefined
-- or that throws.
use http_nest.Prelude.{◌≡◌, refl}

-- A call through the null `req_`; a packet of negative size; a `memcpy` of negative length; a call
-- through the null `outPakcet_`.
pub data Fault : Type 0 where
  null_request negative_packet negative_copy null_packet : Fault

pub data Outcome {ℓ} (A : Type ℓ) : Type ℓ where
  done : A → Outcome A
  fault : Fault → Outcome A

infixl 5 ◌>>=◌
abbrev pub ◌>>=◌ {ℓ κ} : {A : Type ℓ} {B : Type κ} → Outcome A → (A → Outcome B) → Outcome B
done a >>= f = f a
fault e >>= f = fault e

pub >>=-eq-done {ℓ κ} :
    {A : Type ℓ} {B : Type κ} (m : Outcome A) (f : A → Outcome B) {b : B}
    → (m >>= f) ≡ done b
    → (a : A) × (m ≡ done a) × (f a ≡ done b)
>>=-eq-done (done a) f h = (a, refl, h)
>>=-eq-done (fault e) f h = cc

-- ===== src/Result.antt =====
-- How a handler of the gateway ends: it returns; it calls `fatal` (src/susshid/helpers.c) or
-- disconnects the peers (`susshi_disconnect_standard`, `susshi_disconnect_individual` of
-- src/susshid/session.c), which both end the process; or its behaviour is undefined, as at a read
-- through a null pointer or out of bounds.
pub mod Ensures
use susshi.Prelude.{◌≡◌, ◌⊎◌, inl, inr, refl, Option, none, some}

pub data Stop : Type 0 where
  fatal disconnected crash : Stop

pub data Result {ℓ} (A : Type ℓ) : Type ℓ where
  done : A → Result A
  stop : Stop → Result A

infixl 5 ◌>>=◌
abbrev pub ◌>>=◌ {ℓ κ} : {A : Type ℓ} {B : Type κ} → Result A → (A → Result B) → Result B
done a >>= f = f a
stop e >>= f = stop e

-- Inversion of a bind that returned.
pub >>=-eq-done {ℓ κ} :
    {A : Type ℓ} {B : Type κ} (m : Result A) (f : A → Result B) {b : B}
    → (m >>= f) ≡ done b
    → (a : A) × (m ≡ done a) × (f a ≡ done b)
>>=-eq-done (done a) f h = (a, refl, h)
>>=-eq-done (stop e) f h = cc

pub Result-cases {ℓ} :
    {A : Type ℓ} (m : Result A) → ((e : Stop) × (m ≡ stop e)) ⊎ ((a : A) × (m ≡ done a))
Result-cases (done a) = inr (a, refl)
Result-cases (stop e) = inl (e, refl)

-- `goto decode_error`
abbrev pub need {ℓ} : {A : Type ℓ} → Option A → Result A
need none = stop fatal
need (some a) = done a

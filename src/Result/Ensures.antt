-- ===== src/Result/Ensures.antt =====
-- Partial correctness of handlers: what holds of the result whenever one is returned. One rule for
-- each way to build a handler.
use susshi.Prelude.{◌≡◌, refl, Bool, true, false, Option, none, some, if◌then◌else◌}
use mathlib.Core.Path.{subst}
use susshi.Result.{Result, done, stop, Stop, fatal, need, ◌>>=◌}

pub record Ensures {ℓ κ} {A : Type ℓ} (P : A → Type κ) (m : Result A) : Type (ℓ ⊔ κ) where
  pub at : (a : A) → m ≡ done a → P a

module _ {ℓ κ} {A : Type ℓ} {P : A → Type κ} where
  pub Ensures-done : (a : A) → P a → Ensures P (done a)
  Ensures-done a p = record { at = λ b e. subst P (cc) p }

  pub Ensures-stop : (e : Stop) → Ensures P (stop e)
  Ensures-stop e = record { at = λ b h. cc }

  -- Each branch may use its test.
  pub Ensures-if :
      (b : Bool) (m n : Result A)
      → (b ≡ true → Ensures P m)
      → (b ≡ false → Ensures P n)
      → Ensures P (if b then m else n)
  Ensures-if true m n t e = t refl
  Ensures-if false m n t e = e refl

module _ {ℓ κ ι} {A : Type ℓ} {B : Type ι} {P : B → Type κ} where
  -- The rest of the block may use what the first part returned.
  pub Ensures-bind :
      (m : Result A) (f : A → Result B)
      → ((a : A) → m ≡ done a → Ensures P (f a))
      → Ensures P (m >>= f)
  Ensures-bind (done a) f k = k a refl
  Ensures-bind (stop e) f k = Ensures-stop e

module _ {ℓ κ ι} {A : Type ℓ} {B : Type ι} {P : B → Type κ} where
  -- The same for a read of the packet, which stops the process if it fails.
  pub Ensures-need :
      (o : Option A) (f : A → Result B)
      → ((a : A) → o ≡ some a → Ensures P (f a))
      → Ensures P (need o >>= f)
  Ensures-need none f k = Ensures-stop fatal
  Ensures-need (some a) f k = k a refl

module _ {ℓ κ ι} {A : Type ℓ} {P : A → Type κ} {Q : A → Type ι} where
  pub Ensures-weaken : (m : Result A) → ((a : A) → P a → Q a) → Ensures P m → Ensures Q m
  Ensures-weaken m w p = record { at = λ a e. w a (p.at a e) }

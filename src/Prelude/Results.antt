-- ===== src/Prelude/Results.antt =====
-- The result of code that may return an error or panic, and the chains of fallible steps.
use mathlib.Core.Path.{◌≡◌, refl}

-- `Result<A, E>` of a computation, with `panic` for an arithmetic, index or `unwrap` panic.
pub data Outcome {ℓ κ} (E : Type ℓ) (A : Type κ) : Type (ℓ ⊔ κ) where
  ok : A → Outcome E A
  err : E → Outcome E A
  panic : Outcome E A

infixl 5 ◌>>=◌
abbrev pub ◌>>=◌ {ℓ κ ι} :
    {E : Type ℓ} {A : Type κ} {B : Type ι} → Outcome E A → (A → Outcome E B) → Outcome E B
ok a >>= f = f a
err e >>= f = err e
panic >>= f = panic

-- Inversion of a successful bind, for proofs where the parts stay shut.
pub >>=-eq-ok {ℓ κ ι} :
    {E : Type ℓ} {A : Type κ} {B : Type ι} (step : Outcome E A) (rest : A → Outcome E B) {out : B}
    → (step >>= rest) ≡ ok out
    → (mid : A) × (step ≡ ok mid) × (rest mid ≡ ok out)
>>=-eq-ok panic rest e = cc
>>=-eq-ok (err _) rest e = cc
>>=-eq-ok (ok mid) rest e = (mid, refl, e)

pub ok-injective {ℓ κ} :
    {E : Type ℓ} {A : Type κ} {a b : A} → Path (Outcome E A) (ok a) (ok b) → a ≡ b
ok-injective e = cc

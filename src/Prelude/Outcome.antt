-- ===== src/Prelude/Outcome.antt =====
-- Rust's `Result`, with a third case for a call that panics. `?` is the bind of a do block.
use mathlib.Core.Path.{◌≡◌, refl}
use native.Mathlib.Omega.{arith}

pub data Result {ℓ κ} (E : Type κ) (A : Type ℓ) : Type (ℓ ⊔ κ) where
  ok : A → Result E A
  err : E → Result E A
  panic : Result E A

infixl 5 ◌>>=◌
abbrev pub ◌>>=◌ {ℓ κ μ} :
    {E : Type κ} {A : Type ℓ} {B : Type μ} → Result E A → (A → Result E B) → Result E B
ok a >>= f = f a
err e >>= f = err e
panic >>= f = panic

-- A chain that succeeds has steps that succeed.
pub both_steps {κ ℓ μ} :
    {E : Type κ} {A : Type ℓ} {B : Type μ} (r : Result E A) (k : A → Result E B) (b : B)
    → (r >>= k) ≡ ok b
    → (a : A) × (r ≡ ok a) × (k a ≡ ok b)
both_steps (ok a) k b h = (a, refl, h)
both_steps (err e) k b h = ground (arith, h)
both_steps panic k b h = ground (arith, h)

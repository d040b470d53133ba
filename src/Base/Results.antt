-- ===== src/Base/Results.antt =====
-- `Result` of Rust: a value or an error, with `?` as the bind of a `do` block.

use mathlib.Core.Bool.{Bool, true, false}
use mathlib.Core.Logic.{◌⊎◌, inl, inr}
use mathlib.Core.Path.{◌≡◌, refl}

pub data Result {ℓ κ} (A : Type ℓ) (E : Type κ) : Type (ℓ ⊔ κ) where
  ok : A → Result A E
  err : E → Result A E

infixl 5 ◌>>=◌
abbrev pub ◌>>=◌ {ℓ ℓ' κ} :
    {A : Type ℓ} {B : Type ℓ'} {E : Type κ} → Result A E → (A → Result B E) → Result B E
ok a >>= f = f a
err e >>= f = err e

abbrev pub is_ok {ℓ κ} : {A : Type ℓ} {E : Type κ} → Result A E → Bool
is_ok (ok a) = true
is_ok (err e) = false

-- A chain that succeeds has succeeded at its first step, and then after it.
pub bind_ok {ℓ ℓ' κ μ} :
    {A : Type ℓ} {B : Type ℓ'} {E : Type κ} {C : Type μ} (x : Result A E) (f : A → Result B E)
    (b : B)
    → (x >>= f) ≡ ok b
    → ((a : A) → x ≡ ok a → f a ≡ ok b → C)
    → C
bind_ok (ok a) f b h k = k a refl h
bind_ok (err e) f b h k = absurd (cc)

pub Result-cases {ℓ κ} :
    {A : Type ℓ} {E : Type κ} (r : Result A E) → ((a : A) × (r ≡ ok a)) ⊎ ((e : E) × (r ≡ err e))
Result-cases (ok a) = inl (a, refl)
Result-cases (err e) = inr (e, refl)

-- ===== src/Common/Except.antt =====
-- A C++ call that may throw a std::exception: the value, or the text of `what()`.
use mathlib.Core.Path.{◌≡◌, refl}
use mathlib.Core.Logic.{◌⊎◌, inl, inr}
use rdp_ext.Common.Text.{Text}

pub data Except {ℓ} (A : Type ℓ) : Type ℓ where
  returned : A → Except A
  thrown : Text → Except A

infixl 5 ◌>>=◌
abbrev pub ◌>>=◌ {ℓ κ} : {A : Type ℓ} {B : Type κ} → Except A → (A → Except B) → Except B
returned a >>= f = f a
thrown what >>= f = thrown what

pub Except-cases {ℓ} :
    {A : Type ℓ} (e : Except A) → ((a : A) × (e ≡ returned a)) ⊎ ((what : Text) × (e ≡ thrown what))
Except-cases (returned a) = inl (a, refl)
Except-cases (thrown what) = inr (what, refl)

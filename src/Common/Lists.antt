-- ===== src/Common/Lists.antt =====
-- Lists over the native numbers, and a predicate on every item.
use Prim.Native.Nat.{ℕ, suc, ◌+◌}
use mathlib.Core.Path.{◌≡◌, refl, ap, ap₂}
use mathlib.Core.List.{List, [], ◌∷◌, ◌++◌, map, map-append}
use native.Mathlib.Omega.{arith}

module _ {ℓ} {A : Type ℓ} where
  abbrev pub length : List A → ℕ
  length [] = 0
  length (x ∷ xs) = suc (length xs)

  pub length-append : (xs ys : List A) → length (xs ++ ys) ≡ length xs + length ys
  length-append [] ys = omega arith
  length-append (x ∷ xs) ys = omega (arith, length-append xs ys)

abbrev pub All {ℓ κ} : {A : Type ℓ} → (A → Type κ) → List A → Type κ
All P [] = Unit
All P (x ∷ xs) = P x × All P xs

pub All-append {ℓ κ} :
    {A : Type ℓ} (P : A → Type κ) (xs ys : List A) → All P xs → All P ys → All P (xs ++ ys)
All-append P [] ys hx hy = hy
All-append P (x ∷ xs) ys hx hy = (hx.0, All-append P xs ys hx.1 hy)

module _ {ℓ κ} {A : Type ℓ} {B : Type κ} where
  pub length-map : (f : A → B) (xs : List A) → length (map f xs) ≡ length xs
  length-map f [] = refl
  length-map f (x ∷ xs) = omega (arith, length-map f xs)

-- Two equations between images, joined.
pub map-append_eq {ℓ κ μ} :
    {A : Type ℓ} {B : Type κ} {C : Type μ} (f : A → C) (g : B → C) (xs ys : List A) (us vs : List B)
    → map f xs ≡ map g us
    → map f ys ≡ map g vs
    → map f (xs ++ ys) ≡ map g (us ++ vs)
map-append_eq f g xs ys us vs e h = simp map-append (ap₂ ◌++◌ e h)

-- A prefix of an image is the image of a prefix.
pub map-left {ℓ κ} :
    {A : Type ℓ} {B : Type κ} (f : A → B) (xs ys : List B) (zs : List A)
    → xs ++ ys ≡ map f zs
    → (ws : List A) × (vs : List A) × (zs ≡ ws ++ vs) × (xs ≡ map f ws)
map-left f [] ys zs e = ([], zs, refl, refl)
map-left f (x ∷ xs) ys [] e = absurd (omega (arith, ap length e))
map-left f (x ∷ xs) ys (z ∷ zs) e =
    let (ws, vs, p, q) = map-left f xs ys zs (cc e) in (z ∷ ws, vs, ap (λ l. z ∷ l) p, cc (e, q))

pub nil_of_length {ℓ} : {A : Type ℓ} (xs : List A) → length xs ≡ 0 → xs ≡ []
nil_of_length [] h = refl
nil_of_length (x ∷ xs) h = absurd (omega arith)

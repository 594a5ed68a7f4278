-- ===== src/Prelude/Result.antt =====
-- Results of fallible code, an error or a value, and what a success tells of the steps before it.
use mathlib.Core.Path.{◌≡◌, refl, ap}
use mathlib.Core.Logic.{◌⊎◌, inl, inr}
use mathlib.Core.Bool.{Bool, true, false}
use mathlib.Core.Option.{Option, none, some}

-- `?`: the next step, on the value of the one before.
abbrev pub and_then {ℓ κ μ} : {E : Type ℓ} {A : Type κ} {B : Type μ} → E ⊎ A → (A → E ⊎ B) → E ⊎ B
and_then (inl e) f = inl e
and_then (inr a) f = f a

-- An early return with an error, if a condition does not hold.
abbrev pub require {ℓ κ} : {E : Type ℓ} {A : Type κ} → Bool → E → E ⊎ A → E ⊎ A
require true e r = r
require false e r = inl e

-- `ok_or`.
abbrev pub ok_or {ℓ κ} : {E : Type ℓ} {A : Type κ} → E → Option A → E ⊎ A
ok_or e none = inl e
ok_or e (some a) = inr a

-- `map_err` to one error.
abbrev pub or_error {ℓ κ} : {E : Type ℓ} {A : Type κ} → E → E ⊎ A → E ⊎ A
or_error e (inl d) = inl e
or_error e (inr a) = inr a

module _ {ℓ κ} {E : Type ℓ} {A : Type κ} where
  pub inr_injective : (a b : A) → ◌≡◌ {A = E ⊎ A} (inr a) (inr b) → a ≡ b
  inr_injective a b h = cc

  pub inl_injective : (d e : E) → ◌≡◌ {A = E ⊎ A} (inl d) (inl e) → d ≡ e
  inl_injective d e h = cc

  pub inl-ne-inr {μ} : {P : Type μ} (e : E) (a : A) → ◌≡◌ {A = E ⊎ A} (inl e) (inr a) → P
  inl-ne-inr e a h = absurd (cc)

  pub require-ok :
      (b : Bool) (e : E) (r : E ⊎ A) (a : A) → require b e r ≡ inr a → (b ≡ true) × (r ≡ inr a)
  require-ok true e r a h = (refl, h)
  require-ok false e r a h = inl-ne-inr e a h

  pub ok_or-ok : (e : E) (o : Option A) (a : A) → ok_or e o ≡ inr a → o ≡ some a
  ok_or-ok e none a h = inl-ne-inr e a h
  ok_or-ok e (some b) a h = ap some (inr_injective b a h)

  pub or_error-ok : (e : E) (r : E ⊎ A) (a : A) → or_error e r ≡ inr a → r ≡ inr a
  or_error-ok e (inl d) a h = inl-ne-inr e a h
  or_error-ok e (inr b) a h = h

pub and_then-ok {ℓ κ μ} :
    {E : Type ℓ} {A : Type κ} {B : Type μ} (r : E ⊎ A) (f : A → E ⊎ B) (b : B)
    → and_then r f ≡ inr b
    → (a : A) × (r ≡ inr a) × (f a ≡ inr b)
and_then-ok (inl e) f b h = inl-ne-inr e b h
and_then-ok (inr a) f b h = (a, refl, h)

-- To split on a computed result and keep the equation.
pub Result-cases {ℓ κ} :
    {E : Type ℓ} {A : Type κ} (r : E ⊎ A) → ((e : E) × (r ≡ inl e)) ⊎ ((a : A) × (r ≡ inr a))
Result-cases (inl e) = inl (e, refl)
Result-cases (inr a) = inr (a, refl)

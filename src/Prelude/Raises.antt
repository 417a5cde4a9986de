-- ===== src/Prelude/Raises.antt =====
-- Code that may raise: a value or a Python exception.
use mathlib.Core.Path.{◌≡◌, refl, ap}
use mathlib.Core.Bool.{Bool, true, false, ◌||◌}

-- the exceptions that the modelled code raises or lets through
pub data Error : Type 0 where
  type_error value_error overflow_error integrity_error : Error

pub data Result {ℓ} (V : Type ℓ) : Type ℓ where
  err : Error → Result V
  ok : V → Result V

module _ {ℓ κ} {V : Type ℓ} {W : Type κ} where
  infixl 5 ◌>>=◌
  -- An exception of the first step is that of the whole.
  abbrev pub ◌>>=◌ : Result V → (V → Result W) → Result W
  err raised >>= next = err raised
  ok value >>= next = next value

  -- A chain that returns has a first step that returns.
  pub >>=-ok :
      (next : V → Result W) {last : W} (first : Result V)
      → (first >>= next) ≡ ok last
      → (value : V) × (first ≡ ok value) × (next value ≡ ok last)
  >>=-ok next (err raised) returns = cc
  >>=-ok next (ok value) returns = (value, refl, returns)

abbrev pub is_err {ℓ} : {A : Type ℓ} → Result A → Bool
is_err (ok a) = false
is_err (err e) = true

-- A bind raises when its first step does, or else when the rest does.
pub is_err-bind {ℓ κ} :
    {A : Type ℓ} {B : Type κ} (m : Result A) (f : A → Result B) (b c : Bool)
    → is_err m ≡ b
    → ((a : A) → is_err (f a) ≡ c)
    → is_err (m >>= f) ≡ (b || c)
is_err-bind (ok a) f true c p q = cc
is_err-bind (ok a) f false c p q = q a
is_err-bind (err e) f true c p q = refl
is_err-bind (err e) f false c p q = cc

-- A last step that only builds a value raises nothing itself.
pub is_err-last {ℓ κ} :
    {A : Type ℓ} {B : Type κ} (m : Result A) (f : A → B) {b : Bool}
    → is_err m ≡ b
    → is_err (m >>= λ a. ok (f a)) ≡ b
is_err-last (ok a) f p = p
is_err-last (err e) f p = p

pub ok-injective {ℓ} : {A : Type ℓ} {a b : A} → ok a ≡ ok b → a ≡ b
ok-injective {a} p = ap (λ r. elim r [ ok x ↦ x | err e ↦ a ]) p

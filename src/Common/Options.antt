-- ===== src/Common/Options.antt =====
-- Fallible code: `none` is a refusal, and the chain stops at the first one.
use mathlib.Core.Path.{◌≡◌, refl}
use mathlib.Core.Bool.{Bool, true, false}
use mathlib.Core.Option.{Option, none, some}

infixl 5 ◌>>=◌
abbrev pub ◌>>=◌ {ℓ κ} : {A : Type ℓ} {B : Type κ} → Option A → (A → Option B) → Option B
none >>= k = none
some a >>= k = k a

infixl 5 ◌>>◌
abbrev pub ◌>>◌ {ℓ κ} : {A : Type ℓ} {B : Type κ} → Option A → Option B → Option B
none >> k = none
some a >> k = k

abbrev pub is_some {ℓ} : {A : Type ℓ} → Option A → Bool
is_some none = false
is_some (some a) = true

-- `if (!test) throw`.
abbrev pub check : Bool → Option {0} Unit
check true = some tt
check false = none

-- What holds of an answer that there is.
abbrev pub OnSome {ℓ} : {A : Type ℓ} → (A → Type 0) → Option A → Type 0
OnSome P none = Unit
OnSome P (some a) = P a

abbrev value_or {ℓ} : {A : Type ℓ} → A → Option A → A
value_or d none = d
value_or d (some a) = a

pub some_back {ℓ} : {A : Type ℓ} (a b : A) → some a ≡ some b → a ≡ b
some_back a b h = λ i. value_or a (h i)

-- A chain that ends passed each of its steps.
pub bind-some {ℓ κ} :
    {A : Type ℓ} {B : Type κ} (o : Option A) (k : A → Option B) (b : B)
    → (o >>= k) ≡ some b
    → (a : A) × (o ≡ some a) × (k a ≡ some b)
bind-some none k b h = cc
bind-some (some a) k b h = (a, refl, h)

pub check-some {ℓ} :
    {B : Type ℓ} (t : Bool) (o : Option B) (b : B)
    → (check t >> o) ≡ some b
    → (t ≡ true) × (o ≡ some b)
check-some true o b h = (refl, h)
check-some false o b h = cc

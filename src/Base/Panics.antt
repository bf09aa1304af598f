-- ===== src/Base/Panics.antt =====
-- What a call does that may panic, and Rust's `Result`.
use mathlib.Core.Path.{◌≡◌, refl}
use mathlib.Core.Bool.{Bool, true, false}
use mathlib.Core.Option.{Option, none, some}

-- `panics` is a Rust panic: a failed `unwrap`, `expect` or index.
pub data Outcome {ℓ} (A : Type ℓ) : Type ℓ where
  returns : A → Outcome A
  panics : Outcome A

infixl 5 ◌>>=◌ ◌>>◌
abbrev pub ◌>>=◌ {ℓ κ} : {A : Type ℓ} {B : Type κ} → Outcome A → (A → Outcome B) → Outcome B
returns a >>= f = f a
panics >>= f = panics

abbrev pub ◌>>◌ {ℓ} : {B : Type ℓ} → Outcome (Unit {0}) → Outcome B → Outcome B
m >> k = m >>= λ _. k

pub data Result {ℓ κ} (A : Type ℓ) (E : Type κ) : Type (ℓ ⊔ κ) where
  ok : A → Result A E
  err : E → Result A E

-- `Result::unwrap` and `Option::unwrap`
abbrev pub unwrap {ℓ κ} : {A : Type ℓ} {E : Type κ} → Result A E → Outcome A
unwrap (ok a) = returns a
unwrap (err _) = panics

abbrev pub unwrap_option {ℓ} : {A : Type ℓ} → Option A → Outcome A
unwrap_option (some a) = returns a
unwrap_option none = panics

-- A test that panics when it fails: a bounds check, an assertion.
abbrev pub assert : Bool → Outcome (Unit {0})
assert true = returns tt
assert false = panics

-- A run that ends without a panic, in a result with a property.
abbrev pub Returns {ℓ} : {A : Type ℓ} → Outcome A → (A → Type 0) → Type 0
Returns (returns a) P = P a
Returns panics P = ⊥

pub Returns-bind {ℓ κ} :
    {A : Type ℓ} {B : Type κ} (m : Outcome A) (f : A → Outcome B) (P : A → Type 0) (Q : B → Type 0)
    → Returns m P
    → ((a : A) → P a → Returns (f a) Q)
    → Returns (m >>= f) Q
Returns-bind (returns a) f P Q h k = k a h
Returns-bind panics f P Q h k = absurd h

pub Returns-inv {ℓ} :
    {A : Type ℓ} (m : Outcome A) (P : A → Type 0) → Returns m P → (a : A) × (m ≡ returns a) × P a
Returns-inv (returns a) P h = (a, refl, h)
Returns-inv panics P h = absurd h

pub Returns-mono {ℓ} :
    {A : Type ℓ} (m : Outcome A) (P Q : A → Type 0)
    → ((a : A) → P a → Q a)
    → Returns m P
    → Returns m Q
Returns-mono (returns a) P Q k h = k a h
Returns-mono panics P Q k h = absurd h

-- A run that may panic, and has the property if it returns.
abbrev pub Ensures {ℓ} : {A : Type ℓ} → Outcome A → (A → Type 0) → Type 0
Ensures (returns a) P = P a
Ensures panics P = Unit

pub Ensures-bind {ℓ κ} :
    {A : Type ℓ} {B : Type κ} (m : Outcome A) (f : A → Outcome B) (P : A → Type 0) (Q : B → Type 0)
    → Ensures m P
    → ((a : A) → P a → Ensures (f a) Q)
    → Ensures (m >>= f) Q
Ensures-bind (returns a) f P Q h k = k a h
Ensures-bind panics f P Q h k = tt

-- A run that returns, and ensures a property, returns with it.
pub Returns-Ensures {ℓ} :
    {A : Type ℓ} (m : Outcome A) (P Q : A → Type 0) → Ensures m P → Returns m Q → Returns m P
Returns-Ensures (returns a) P Q e r = e
Returns-Ensures panics P Q e r = absurd r

abbrev pub Always {ℓ} : {A : Type ℓ} → A → Type 0
Always _ = Unit

pub Returns-of-Ensures {ℓ} :
    {A : Type ℓ} (m : Outcome A) (P Q : A → Type 0)
    → Ensures m P
    → Returns m Always
    → ((a : A) → P a → Q a)
    → Returns m Q
Returns-of-Ensures m P Q e r k = Returns-mono m P Q k (Returns-Ensures m P Always e r)

pub unwrap-Ensures : {A : Type 0} {E : Type 0} (r : Result A E) → Ensures (unwrap r) (λ a. r ≡ ok a)
unwrap-Ensures (ok a) = refl
unwrap-Ensures (err e) = tt

pub unwrap_option-Ensures :
    {A : Type 0} (o : Option A) → Ensures (unwrap_option o) (λ a. o ≡ some a)
unwrap_option-Ensures (some a) = refl
unwrap_option-Ensures none = tt

-- Whatever a step answers.
pub Ensures-after {ℓ κ} :
    {A : Type ℓ} {B : Type κ} (m : Outcome A) (f : A → Outcome B) (Q : B → Type 0)
    → ((a : A) → Ensures (f a) Q)
    → Ensures (m >>= f) Q
Ensures-after (returns a) f Q k = k a
Ensures-after panics f Q k = tt

pub Ensures-mono {ℓ} :
    {A : Type ℓ} (m : Outcome A) (P Q : A → Type 0)
    → ((a : A) → P a → Q a)
    → Ensures m P
    → Ensures m Q
Ensures-mono (returns a) P Q k h = k a h
Ensures-mono panics P Q k h = tt

pub Ensures-Always {ℓ} : {A : Type ℓ} (m : Outcome A) → Ensures m Always
Ensures-Always (returns a) = tt
Ensures-Always panics = tt

pub bind_then {ℓ κ} :
    {A : Type ℓ} {B : Type ℓ} {C : Type κ} (o : Outcome A) (f : A → Outcome C) (g : A → Outcome B)
    (h : B → Outcome C)
    → ((a : A) → f a ≡ (g a >>= h))
    → (o >>= f) ≡ ((o >>= g) >>= h)
bind_then (returns a) f g h e = e a
bind_then panics f g h e = refl

pub Ensures-of-Returns {ℓ} :
    {A : Type ℓ} (m : Outcome A) (P : A → Type 0) → Returns m P → Ensures m P
Ensures-of-Returns (returns a) P h = h
Ensures-of-Returns panics P h = tt

-- ===== src/Common/Checked.antt =====
-- Code that may stop: `none` is a failed assertion, an access out of bounds or `log_die`.
use mathlib.Core.Path.{◌≡◌, refl, ap, ◌∙◌}
use mathlib.Core.Logic.{◌⊎◌, inl, inr}
use mathlib.Core.Bool.{Bool, true, false}
use mathlib.Core.Option.{Option, none, some}

infixl 5 ◌>>=◌ ◌>>◌
abbrev pub ◌>>=◌ {ℓ κ} : {A : Type ℓ} {B : Type κ} → Option A → (A → Option B) → Option B
none >>= f = none
some a >>= f = f a

abbrev pub ◌>>◌ {ℓ} : {B : Type ℓ} → Option (Unit {0}) → Option B → Option B
m >> k = m >>= λ _. k

-- `assert(b)`.
abbrev pub require : Bool → Option (Unit {0})
require true = some tt
require false = none

pub Option-cases {ℓ} : {A : Type ℓ} (o : Option A) → (o ≡ none) ⊎ ((a : A) × (o ≡ some a))
Option-cases none = inl refl
Option-cases (some a) = inr (a, refl)

pub >>=-eq-some {ℓ κ} :
    {A : Type ℓ} {B : Type κ} (m : Option A) (f : A → Option B) {b : B}
    → (m >>= f) ≡ some b
    → (a : A) × (m ≡ some a) × (f a ≡ some b)
>>=-eq-some none f h = cc
>>=-eq-some (some a) f h = (a, refl, h)

pub >>=_ext {ℓ κ} :
    {A : Type ℓ} {B : Type κ} (m : Option A) {f g : A → Option B}
    → ((a : A) → f a ≡ g a)
    → (m >>= f) ≡ (m >>= g)
>>=_ext none h = refl
>>=_ext (some a) h = h a

abbrev pub Holds {ℓ} : {A : Type ℓ} → (A → Type 0) → Option A → Type 0
Holds P none = Unit {0}
Holds P (some a) = P a

-- Two computations with one result, which has the property `P` where there is one.
abbrev pub Alike {ℓ} : {A : Type ℓ} → (A → Type 0) → Option A → Option A → Type ℓ
Alike P m m' = (m ≡ m') × Holds P m

pub >>=-Alike :
    {A B : Type 0} (P : A → Type 0) (Q : B → Type 0) (m m' : Option A) (f g : A → Option B)
    → Alike P m m'
    → ((a : A) → P a → Alike Q (f a) (g a))
    → Alike Q (m >>= f) (m' >>= g)
>>=-Alike P Q none m' f g h k = (ap (λ o. o >>= g) h.0, tt)
>>=-Alike P Q (some a) m' f g h k =
    let (same, after) = k a h.1 in (same ∙ ap (λ o. o >>= g) h.0, after)

pub Alike_eq-some :
    {A : Type 0} (P : A → Type 0) {m m' : Option A} {a : A} → Alike P m m' → m ≡ some a → P a
Alike_eq-some P h e = rw e at h.1

pub >>=-Holds {ℓ κ} :
    {A : Type ℓ} {B : Type κ} (P : A → Type 0) (Q : B → Type 0) (m : Option A) (f : A → Option B)
    → Holds P m
    → ((a : A) → P a → Holds Q (f a))
    → Holds Q (m >>= f)
>>=-Holds P Q none f h k = tt
>>=-Holds P Q (some a) f h k = k a h

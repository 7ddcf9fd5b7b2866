-- ===== src/Prelude/Errors.antt =====
-- What a call of the Rust code comes to: a value, an error value, or a panic (an index or a slice
-- out of range).
use mathlib.Core.Path.{◌≡◌, refl}
use mathlib.Core.Bool.{Bool, true, false}

pub data Outcome {ℓ κ} (E : Type ℓ) (A : Type κ) : Type (ℓ ⊔ κ) where
  ok : A → Outcome E A
  err : E → Outcome E A
  panic : Outcome E A

infixl 5 ◌>>=◌ ◌>>◌
abbrev pub ◌>>=◌ {ℓ κ μ} :
    {E : Type ℓ} {A : Type κ} {B : Type μ} → Outcome E A → (A → Outcome E B) → Outcome E B
ok a >>= f = f a
err e >>= f = err e
panic >>= f = panic

abbrev pub ◌>>◌ {ℓ μ} : {E : Type ℓ} {B : Type μ} → Outcome E (Unit {0}) → Outcome E B → Outcome E B
m >> k = m >>= λ _. k

-- `if c { bail!(e) }`.
abbrev pub bail_if {ℓ} : {E : Type ℓ} → Bool → E → Outcome E (Unit {0})
bail_if true e = err e
bail_if false e = ok tt

-- The call does not panic.
abbrev pub Safe {ℓ κ} : {E : Type ℓ} {A : Type κ} → Outcome E A → Type 0
Safe (ok a) = Unit
Safe (err e) = Unit
Safe panic = ⊥

-- The call does not panic, and a value that it returns has the property.
abbrev pub Ensures {ℓ κ} : {E : Type ℓ} {A : Type κ} → (A → Type 0) → Outcome E A → Type 0
Ensures P (ok a) = P a
Ensures P (err e) = Unit
Ensures P panic = ⊥

pub Ensures-bind {ℓ κ μ} :
    {E : Type ℓ} {A : Type κ} {B : Type μ} (P : A → Type 0) (Q : B → Type 0) (m : Outcome E A)
    (f : A → Outcome E B)
    → Ensures P m
    → ((a : A) → P a → Ensures Q (f a))
    → Ensures Q (m >>= f)
Ensures-bind P Q (ok a) f h k = k a h
Ensures-bind P Q (err e) f h k = tt
Ensures-bind P Q panic f h k = elim h [ ]

-- `map_err(t)`.
abbrev pub map_err {ℓ κ μ} :
    {E : Type ℓ} {F : Type κ} {A : Type μ} → (E → F) → Outcome E A → Outcome F A
map_err t (ok a) = ok a
map_err t (err e) = err (t e)
map_err t panic = panic

-- Two chains that agree up to their error types agree step by step.
pub map_err-bind {ℓ κ μ ν} :
    {E : Type ℓ} {F : Type κ} {A : Type μ} {B : Type ν} (t : E → F) (m : Outcome E A)
    (m' : Outcome F A) (f : A → Outcome E B) (f' : A → Outcome F B)
    → m' ≡ map_err t m
    → ((a : A) → m ≡ ok a → f' a ≡ map_err t (f a))
    → (m' >>= f') ≡ map_err t (m >>= f)
map_err-bind t (ok a) m' f f' h k = rw h (k a refl)
map_err-bind t (err e) m' f f' h k = rw h
map_err-bind t panic m' f f' h k = rw h

pub >>=_assoc {ℓ κ μ ν} :
    {E : Type ℓ} {A : Type κ} {B : Type μ} {C : Type ν} (m : Outcome E A) (f : A → Outcome E B)
    (g : B → Outcome E C)
    → ((m >>= f) >>= g) ≡ (m >>= λ a. f a >>= g)
>>=_assoc (ok a) f g = refl
>>=_assoc (err e) f g = refl
>>=_assoc panic f g = refl

-- A chain that returns `y` went through a first value, and on from there.
pub ok-bind {ℓ κ μ} :
    {E : Type ℓ} {A : Type κ} {B : Type μ} (next : A → Outcome E B) (first : Outcome E A) {y : B}
    → (first >>= next) ≡ ok y
    → (x : A) × (next x ≡ ok y) × (first ≡ ok x)
ok-bind next panic done = cc
ok-bind next (err e) done = cc
ok-bind next (ok x) done = (x, done, refl)

pub map_err-eq-ok {ℓ κ μ} :
    {E : Type ℓ} {F : Type κ} {A : Type μ} (t : E → F) (m : Outcome E A) {a : A}
    → map_err t m ≡ ok a
    → m ≡ ok a
map_err-eq-ok t (ok b) h = cc
map_err-eq-ok t (err e) h = cc
map_err-eq-ok t panic h = cc

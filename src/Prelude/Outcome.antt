-- ===== src/Prelude/Outcome.antt =====
-- The result of code that may raise: a value, or an error of the component's own type.
use mathlib.Core.Path.{◌≡◌, refl, ap}
use mathlib.Core.Logic.{◌⊎◌, inl, inr}
use mathlib.Core.Bool.{Bool, true, false}
use mathlib.Core.Option.{Option, none, some}
use native.Mathlib.Omega.{arith}

pub data Result {ℓ κ} (E : Type κ) (A : Type ℓ) : Type (ℓ ⊔ κ) where
  ok : A → Result E A
  err : E → Result E A

infixl 5 ◌>>=◌ ◌>>◌
abbrev pub ◌>>=◌ {ℓ κ μ} :
    {E : Type μ} {A : Type ℓ} {B : Type κ} → Result E A → (A → Result E B) → Result E B
ok a >>= f = f a
err e >>= f = err e

abbrev pub ◌>>◌ {ℓ μ} : {E : Type μ} {B : Type ℓ} → Result E (Unit {0}) → Result E B → Result E B
m >> k = m >>= λ _. k

-- `if test: raise e`
abbrev pub raise_if {μ} : {E : Type μ} → Bool → E → Result E (Unit {0})
raise_if true e = err e
raise_if false e = ok tt

abbrev pub or_raise {ℓ μ} : {E : Type μ} {A : Type ℓ} → Option A → E → Result E A
or_raise none e = err e
or_raise (some a) e = ok a

abbrev pub is_ok {ℓ μ} : {E : Type μ} {A : Type ℓ} → Result E A → Bool
is_ok (ok a) = true
is_ok (err e) = false

pub Result-cases {ℓ μ} :
    {E : Type μ} {A : Type ℓ} (r : Result E A) → ((a : A) × (r ≡ ok a)) ⊎ ((e : E) × (r ≡ err e))
Result-cases (ok a) = inl (a, refl)
Result-cases (err e) = inr (e, refl)

-- What a chain that has come to a value has come through.
pub bind_ok {ℓ κ μ} :
    {E : Type μ} {A : Type ℓ} {B : Type κ} (m : Result E A) (f : A → Result E B) {b : B}
    → m >>= f ≡ ok b
    → (a : A) × (m ≡ ok a) × (f a ≡ ok b)
bind_ok (ok a) f h = (a, refl, h)
bind_ok (err e) f h = cc

pub ok_inj {ℓ μ} : {E : Type μ} {A : Type ℓ} {a b : A} → Path (Result E A) (ok a) (ok b) → a ≡ b
ok_inj {a} h = ap (λ r. elim r [ ok c ↦ c | err e ↦ a ]) h

-- An error of a chain is raised by its first part or by the rest.
pub bind_err {ℓ κ μ} :
    {E : Type μ} {A : Type ℓ} {B : Type κ} (m : Result E A) (f : A → Result E B) {e : E}
    → m >>= f ≡ err e
    → (m ≡ err e) ⊎ ((a : A) × (m ≡ ok a) × (f a ≡ err e))
bind_err (ok a) f h = inr (a, refl, h)
bind_err (err e) f h = inl (ground arith)

pub raise_if_ok {μ} : {E : Type μ} (test : Bool) (e : E) → raise_if test e ≡ ok tt → test ≡ false
raise_if_ok true e h = cc
raise_if_ok false e h = refl

-- A chain that has come to a value has passed the guard in front.
pub guard_ok {ℓ μ} :
    {E : Type μ} {B : Type ℓ} (test : Bool) (e : E) (k : Result E B) {b : B}
    → raise_if test e >> k ≡ ok b
    → (test ≡ false) × (k ≡ ok b)
guard_ok true e k h = absurd (ground arith)
guard_ok false e k h = (refl, h)

pub guard_pass {ℓ μ} :
    {E : Type μ} {B : Type ℓ} (test : Bool) (e : E) (k : Result E B)
    → test ≡ false
    → raise_if test e >> k ≡ k
guard_pass true e k h = absurd (ground arith)
guard_pass false e k h = refl

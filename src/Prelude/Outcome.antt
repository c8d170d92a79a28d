-- ===== src/Prelude/Outcome.antt =====
-- What a Rust function that may fail comes back with: a value, an error, or a panic.
-- A panic is a result of the model, so that its absence is a theorem.
use mathlib.Core.Option.{Option, none, some}
use mathlib.Core.Path.{◌≡◌, refl}
use mathlib.Core.Bool.{Bool, true, false}

pub data Result {ℓ κ} (A : Type ℓ) (E : Type κ) : Type (ℓ ⊔ κ) where
  ok : A → Result A E
  err : E → Result A E
  panic : Result A E

infixl 5 ◌>>=◌ ◌>>◌
abbrev pub ◌>>=◌ {ℓ κ μ} :
    {A : Type ℓ} {B : Type κ} {E : Type μ} → Result A E → (A → Result B E) → Result B E
ok a >>= f = f a
err e >>= f = err e
panic >>= f = panic

abbrev pub ◌>>◌ {κ μ} : {B : Type κ} {E : Type μ} → Result (Unit {0}) E → Result B E → Result B E
m >> k = m >>= λ _. k

-- `if cond { return Err(e) }`
abbrev pub fail_if {μ} : {E : Type μ} → Bool → E → Result (Unit {0}) E
fail_if true e = err e
fail_if false e = ok tt

-- `option.ok_or(e)`
abbrev pub ok_or {ℓ μ} : {A : Type ℓ} {E : Type μ} → Option A → E → Result A E
ok_or none e = err e
ok_or (some a) e = ok a

-- A value, if there is one, satisfies the predicate, and there is no panic.
abbrev pub Ensures {ℓ κ} : {A : Type ℓ} {E : Type κ} → (A → Type 0) → Result A E → Type 0
Ensures P (ok a) = P a
Ensures P (err e) = Unit {0}
Ensures P panic = ⊥

-- The function comes back, with a value or an error.
abbrev pub Returns {ℓ κ} : {A : Type ℓ} {E : Type κ} → Result A E → Type 0
Returns m = Ensures (λ _. Unit {0}) m

pub Ensures-bind {ℓ κ μ} :
    {A : Type ℓ} {B : Type κ} {E : Type μ} (P : A → Type 0) (Q : B → Type 0) (m : Result A E)
    (f : A → Result B E)
    → Ensures P m
    → ((a : A) → P a → Ensures Q (f a))
    → Ensures Q (m >>= f)
Ensures-bind P Q (ok a) f h k = k a h
Ensures-bind P Q (err e) f h k = tt
Ensures-bind P Q panic f h k = h

pub Ensures-weaken {ℓ κ} :
    {A : Type ℓ} {E : Type κ} (P Q : A → Type 0)
    → ((a : A) → P a → Q a)
    → (m : Result A E) → Ensures P m
    → Ensures Q m
Ensures-weaken P Q f (ok a) h = f a h
Ensures-weaken P Q f (err e) h = tt
Ensures-weaken P Q f panic h = h

-- Behind a test that has not failed
module _ {ℓ κ} {B : Type ℓ} {E : Type κ} (Q : B → Type 0) where
  pub Ensures-ok_or {μ} :
      {A : Type μ} (o : Option A) (e : E) (f : A → Result B E)
      → ((a : A) → o ≡ some a → Ensures Q (f a))
      → Ensures Q (ok_or o e >>= f)
  Ensures-ok_or none e f k = tt
  Ensures-ok_or (some a) e f k = k a refl

  pub Ensures-fail_if :
      (b : Bool) (e : E) (m : Result B E) → (b ≡ false → Ensures Q m) → Ensures Q (fail_if b e >> m)
  Ensures-fail_if true e m k = tt
  Ensures-fail_if false e m k = k refl

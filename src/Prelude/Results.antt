-- ===== src/Prelude/Results.antt =====
-- Outcomes of fallible code: `err e` is an `Err(e)` of the source, `panic` a failed `expect`.
use mathlib.Core.Path.{◌≡◌, refl, ap}
use mathlib.Core.Option.{Option, none, some}
use mathlib.Core.Bool.{Bool, true, false}

pub data Result {ℓ} (E : Type 0) (A : Type ℓ) : Type ℓ where
  ok : A → Result E A
  err : E → Result E A
  panic : Result E A

infixl 5 ◌>>=◌ ◌>>◌
abbrev pub ◌>>=◌ {ℓ κ} :
    {E : Type 0} {A : Type ℓ} {B : Type κ} → Result E A → (A → Result E B) → Result E B
ok a >>= f = f a
err e >>= f = err e
panic >>= f = panic

abbrev pub ◌>>◌ {ℓ} : {E : Type 0} {B : Type ℓ} → Result E (Unit {0}) → Result E B → Result E B
m >> k = m >>= λ _. k

-- `o.expect(..)`.
abbrev pub expect {ℓ} : {E : Type 0} {A : Type ℓ} → Option A → Result E A
expect none = panic
expect (some a) = ok a

-- `o.ok_or(e)`.
abbrev pub ok_or {ℓ} : {E : Type 0} {A : Type ℓ} → Option A → E → Result E A
ok_or none e = err e
ok_or (some a) e = ok a

-- `if b { return Err(e) }`.
abbrev pub refuse_if : {E : Type 0} → Bool → E → Result E (Unit {0})
refuse_if true e = err e
refuse_if false e = ok tt

-- What it takes for a chain to succeed.
pub bind-ok {ℓ κ} :
    {E : Type 0} {A : Type ℓ} {B : Type κ} (m : Result E A) (f : A → Result E B) (b : B)
    → (m >>= f) ≡ ok b
    → (a : A) × (m ≡ ok a) × (f a ≡ ok b)
bind-ok (ok a) f b h = (a, refl, h)
bind-ok (err e) f b h = cc
bind-ok panic f b h = cc

pub expect-ok {ℓ} :
    {E : Type 0} {A : Type ℓ} (o : Option A) (a : A) → expect {E = E} o ≡ ok a → o ≡ some a
expect-ok none a h = cc
expect-ok (some b) a h = ap some (cc)

pub refuse_if-ok : {E : Type 0} (b : Bool) (e : E) (u : Unit {0}) → refuse_if b e ≡ ok u → b ≡ false
refuse_if-ok true e u h = cc
refuse_if-ok false e u h = refl

pub ok_inj {ℓ} : {E : Type 0} {A : Type ℓ} {a b : A} → ◌≡◌ {A = Result E A} (ok a) (ok b) → a ≡ b
ok_inj e = cc

pub some_inj {ℓ} : {A : Type ℓ} {a b : A} → some a ≡ some b → a ≡ b
some_inj e = cc

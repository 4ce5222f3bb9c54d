-- ===== src/World/Outcomes.antt =====
-- Results that are passed on with `?`, and what a result of several steps says of each.
use mina_evm_l.Prelude.{
  ◌≡◌, refl, ◌⊎◌, inl, inr, Bool, true, false, Option, none, some, if◌then◌else◌,
}
use mina_evm_l.World.{Error, rpc_error, Outcome, ok, err, panic}

infixl 5 ◌>>=◌
-- `?`
abbrev pub ◌>>=◌ : {A B : Type 0} → Outcome A → (A → Outcome B) → Outcome B
ok a >>= f = f a
err e >>= f = err e
panic >>= f = panic

abbrev pub or_err : {A : Type 0} → Option A → Outcome A
or_err none = err rpc_error
or_err (some a) = ok a

pub Outcome-cases :
    {A : Type 0} (r : Outcome A)
    → ((e : Error) × (r ≡ err e)) ⊎ ((r ≡ panic) ⊎ ((a : A) × (r ≡ ok a)))
Outcome-cases (err e) = inl (e, refl)
Outcome-cases panic = inr (inl refl)
Outcome-cases (ok a) = inr (inr (a, refl))

pub or_err-ok :
    {A B : Type 0} (o : Option A) (f : A → Outcome B) (b : B)
    → (or_err o >>= f) ≡ ok b
    → (a : A) × (o ≡ some a) × (f a ≡ ok b)
or_err-ok none f b h = absurd cc
or_err-ok (some a) f b h = (a, refl, h)

pub bind-ok :
    {A B : Type 0} (r : Outcome A) (f : A → Outcome B) (b : B)
    → (r >>= f) ≡ ok b
    → (a : A) × (r ≡ ok a) × (f a ≡ ok b)
bind-ok (ok a) f b h = (a, refl, h)
bind-ok (err e) f b h = absurd cc
bind-ok panic f b h = absurd cc

-- A test that must have been false, and one that must have been true.
pub unless-ok :
    {B : Type 0} (t : Bool) (r : Outcome (Option B)) (b : B)
    → (if t then ok none else r) ≡ ok (some b)
    → (t ≡ false) × (r ≡ ok (some b))
unless-ok true r b h = absurd cc
unless-ok false r b h = (refl, h)

pub when-ok :
    {B : Type 0} (t : Bool) (a b : B)
    → (if t then ok (some a) else ok none) ≡ ok (some b)
    → (t ≡ true) × (a ≡ b)
when-ok true a b h = (refl, cc)
when-ok false a b h = absurd cc

-- The value of a result, if it has one.
abbrev pub value : {A : Type 0} → Outcome A → Option A
value (ok a) = some a
value (err e) = none
value panic = none

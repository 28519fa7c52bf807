-- ===== src/Client/Results.antt =====
-- A step that may throw: its value, or what it throws.
use integr8s_code.Base.{◌≡◌, refl, ◌⊎◌, inl, inr, Option, none, some}

pub data Result (E : Type 0) (A : Type 0) : Type 0 where
  ok : A → Result E A
  thrown : E → Result E A

-- A step whose exceptions are not told apart, with the exception it throws.
abbrev pub or_throw : {E A : Type 0} → E → Option A → Result E A
or_throw e (some a) = ok a
or_throw e none = thrown e

infixl 5 ◌>>=◌
abbrev pub ◌>>=◌ : {E A B : Type 0} → Result E A → (A → Result E B) → Result E B
ok a >>= f = f a
thrown e >>= f = thrown e

pub Result-cases :
    {E A : Type 0} (r : Result E A) → ((a : A) × (r ≡ ok a)) ⊎ ((e : E) × (r ≡ thrown e))
Result-cases (ok a) = inl (a, refl)
Result-cases (thrown e) = inr (e, refl)

-- A chain that answers ran both of its steps.
pub chain-ok :
    {E B A : Type 0} (next : A → Result E B) (r : Result E A) {answer : B}
    → (r >>= next) ≡ ok answer
    → (a : A) × (next a ≡ ok answer)
chain-ok next (thrown e) h = absurd (cc)
chain-ok next (ok a) h = (a, h)

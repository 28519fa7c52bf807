-- ===== src/Client/Interceptors/Examples.antt =====
-- Runs of lists of interceptors.
use integr8s_code.Base.{ℕ, ◌+◌, ◌*◌, ◌==◌, Bool, List, [], ◌∷◌}
use integr8s_code.Client.Interceptors.Slots.{Operation, register, ejected, updated}

abbrev same_number : ℕ → ℕ → Bool
same_number a b = a == b

abbrev operations : List (Operation ℕ)
operations = register 7 ∷ register 8 ∷ ejected 0 ∷ updated 1 9 ∷ updated 0 5 ∷ []

abbrev same_function : (ℕ → ℕ) → (ℕ → ℕ) → Bool
same_function f g = f 1 == g 1

abbrev increment : ℕ → ℕ
increment n = n + 1

abbrev double : ℕ → ℕ
double n = n * 2

-- ===== src/Editor/Execution/Runs.antt =====
-- How many runs have not returned.
use integr8s_code.Base.{
  ℕ, zero, suc, ◌≤◌, ◌+◌, ◌≡◌, refl, ap, some, List, [], ◌∷◌, ◌++◌, get_elem?, set, arith,
}
use integr8s_code.Editor.Execution.{Run, returned}

abbrev pub weight : Run → ℕ
weight returned = 0
weight _ = 1

-- How many calls of `execute` have not returned.
abbrev pub live : List Run → ℕ
live [] = 0
live (r ∷ rs) = weight r + live rs

pub live-append : (rs : List Run) (r : Run) → live (rs ++ r ∷ []) ≡ live rs + weight r
live-append [] r = omega arith
live-append (x ∷ rs) r = omega (arith, live-append rs r)

pub live-set :
    (rs : List Run) (i : ℕ) (x v : Run)
    → get_elem? rs i ≡ some x
    → live (set rs i v) + weight x ≡ live rs + weight v
live-set [] i x v g = cc
live-set (y ∷ rs) zero x v g = ground arith
live-set (y ∷ rs) (suc i) x v g = omega (arith, live-set rs i x v g)

pub weight-le-live :
    (rs : List Run) (i : ℕ) (x : Run) → get_elem? rs i ≡ some x → weight x ≤ live rs
weight-le-live rs i x g = omega (arith, live-set rs i x returned g)

pub live_unique :
    (rs : List Run) (i j : ℕ) (x y : Run)
    → live rs ≡ 1
    → get_elem? rs i ≡ some x
    → weight x ≡ 1
    → get_elem? rs j ≡ some y
    → weight y ≡ 1
    → i ≡ j
live_unique [] i j x y l g w h v = cc
live_unique (z ∷ rs) zero zero x y l g w h v = refl
live_unique (z ∷ rs) zero (suc j) x y l g w h v = ground (arith, weight-le-live rs j y h)
live_unique (z ∷ rs) (suc i) zero x y l g w h v = ground (arith, weight-le-live rs i x g)
live_unique (z ∷ rs) (suc i) (suc j) x y l g w h v =
    ap suc (live_unique rs i j x y (omega (arith, weight-le-live rs i x g)) g w h v)

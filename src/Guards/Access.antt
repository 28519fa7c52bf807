-- ===== src/Guards/Access.antt =====
-- Which visits get through.
use integr8s_code.Base.{
  subst, false≢true, ◌≢◌, ◌≡◌, ◌↔◌, refl, sym, ap, ◌∙◌, inl, inr, Bool, true, false, ◌||◌,
  Bool-cases, Option, none, some, ◌==◌, arith,
}
use integr8s_code.Api.{UserRole, user, admin, moderator}
use integr8s_code.Errors.{ErrorResponse}
use integr8s_code.Guards.{
  UserResponse, Url, Router, Load, loaded, is_admin, auth_load, admin_load, visit,
}

-- The answer says who is signed in: there is no failure, or one that stands for nobody signed in or for
-- no network.
abbrev pub is_answered : Option ErrorResponse → Bool
is_answered none = true
is_answered (some failure) = failure.status == 401 || failure.status == 0

visit-answered :
    (layout : Option UserResponse → Load UserResponse) (answer : Option UserResponse)
    (failure : Option ErrorResponse)
    → is_answered failure ≡ true
    → visit layout answer failure ≡ layout answer
unfolding visit
visit-answered layout answer none h = refl
visit-answered layout answer (some failure) h = ground (arith, h)

visit-unanswered :
    (layout : Option UserResponse → Load UserResponse) (answer : Option UserResponse)
    (failure : Option ErrorResponse) (u : UserResponse)
    → is_answered failure ≡ false
    → visit layout answer failure ≢ loaded u
unfolding visit
visit-unanswered layout answer none u h e = absurd (cc)
visit-unanswered layout answer (some failure) u h e = ground (arith, h, e)

-- What a layout lets through when it knows who is signed in carries over to visits.
visit_iff :
    (layout : Option UserResponse → Load UserResponse) (answer : Option UserResponse)
    (failure : Option ErrorResponse) (u : UserResponse) (P : Type 0)
    → (layout answer ≡ loaded u) ↔ P
    → (visit layout answer failure ≡ loaded u) ↔ (P × (is_answered failure ≡ true))
visit_iff layout answer failure u P h = elim (Bool-cases (is_answered failure)) [
  | inl a ↦ rw (visit-answered layout answer failure a) (λ e. (h.0 e, a), λ p. h.1 p.0)
  | inr a ↦ (
    λ e. absurd (visit-unanswered layout answer failure u a e),
    λ p. absurd (false≢true (sym a ∙ p.1)),
  )
]

auth_iff :
    (r : Router) (url : Url) (answer : Option UserResponse) (u : UserResponse)
    → (auth_load r url answer ≡ loaded u) ↔ (answer ≡ some u)
unfolding auth_load
auth_iff r url none u = (λ e. cc, λ e. cc)
auth_iff r url (some v) u = (λ e. cc, λ e. cc)

is_admin-eq : (role : UserRole) → is_admin role ≡ true → role ≡ admin
is_admin-eq admin h = refl
is_admin-eq user h = cc
is_admin-eq moderator h = cc

loaded_injective : (v u : UserResponse) → loaded v ≡ loaded u → v ≡ u
loaded_injective v u e = cc

some_injective : (v u : UserResponse) → some v ≡ some u → v ≡ u
some_injective v u e = cc

admin_iff :
    (r : Router) (url : Url) (answer : Option UserResponse) (u : UserResponse)
    → (admin_load r url answer ≡ loaded u) ↔ ((answer ≡ some u) × (u.role ≡ admin))
unfolding admin_load
admin_iff r url none u = (λ e. absurd (cc), λ p. absurd (cc))
admin_iff r url (some v) u = elim (Bool-cases (is_admin v.role)) [
  | inl a ↦ rw a (
    λ e. (cc, subst (λ w. w.role ≡ admin) (loaded_injective v u e) (is_admin-eq v.role a)),
    λ p. cc,
  )
  | inr a ↦ rw a (
    λ e. absurd (cc),
    λ p. absurd (
        false≢true (
          sym a
          ∙ subst (λ w. is_admin w.role ≡ true) (sym (some_injective v u p.0)) (ap is_admin p.1))),
  )
]

-- A page for signed-in users opens for a user exactly if the API answers that this user is signed in;
-- an admin page exactly if that user is also an administrator. Neither opens when the request for the
-- profile failed otherwise than by nobody being signed in or no network.
pub visit-admits :
    (r : Router) (url : Url) (answer : Option UserResponse) (failure : Option ErrorResponse)
    (u : UserResponse)
    → ((visit (auth_load r url) answer failure ≡ loaded u)
        ↔ ((answer ≡ some u) × (is_answered failure ≡ true)))
      × ((visit (admin_load r url) answer failure ≡ loaded u)
          ↔ (((answer ≡ some u) × (u.role ≡ admin)) × (is_answered failure ≡ true)))
visit-admits r url answer failure u = (
  visit_iff (auth_load r url) answer failure u (answer ≡ some u) (auth_iff r url answer u),
  visit_iff (admin_load r url) answer failure u ((answer ≡ some u) × (u.role ≡ admin))
      (admin_iff r url answer u),
)

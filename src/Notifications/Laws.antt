-- ===== src/Notifications/Laws.antt =====
-- Which streams are live, and which icon a list of tags shows.
use integr8s_code.Base.{
  Option-cases, ℕ, zero, suc, ◌≡◌, ◌≢◌, ◌↔◌, refl, ap, sym, ◌∙◌, inl, inr, Bool, true, false, ◌||◌,
  Bool-cases, Option, none, some, List, [], ◌∷◌, ◌++◌, if◌then◌else◌, Text, codes, text_eq, length,
  get_elem?, set, arith,
}
use integr8s_code.Notifications.{
  Icon, circle_alert, triangle_alert, circle_check, info, has, notification_icon, State, Event,
  initial, connect, disconnect, on_data, on_sse_error, is_aborted, step, steps, connect_called,
  disconnect_called, stream_yielded, stream_failed, stream_stopped,
}

-- The worse of two icons: an alert before a warning, a warning before a success.
abbrev pub worse : Icon → Icon → Icon
worse circle_alert _ = circle_alert
worse triangle_alert circle_alert = circle_alert
worse triangle_alert _ = triangle_alert
worse circle_check info = circle_check
worse circle_check i = i
worse info i = i

has-append : (xs ys : List Text) (t : Text) → has (xs ++ ys) t ≡ (has xs t || has ys t)
has-append [] ys t = refl
has-append (x ∷ xs) ys t = ground (arith, has-append xs ys t)

abbrev icon_of : (failure warning success : Bool) → Icon
icon_of failure warning success =
    if failure
    then circle_alert
    else if warning
    then triangle_alert
    else if success
    then circle_check
    else info

icon_of-worse :
    (a b c d e f : Bool)
    → icon_of (a || d) (b || e) (c || f) ≡ worse (icon_of a b c) (icon_of d e f)
icon_of-worse true _ _ _ _ _ = refl
icon_of-worse false true _ true _ _ = refl
icon_of-worse false true _ false true _ = refl
icon_of-worse false true _ false false true = refl
icon_of-worse false true _ false false false = refl
icon_of-worse false false true true _ _ = refl
icon_of-worse false false true false true _ = refl
icon_of-worse false false true false false true = refl
icon_of-worse false false true false false false = refl
icon_of-worse false false false true _ _ = refl
icon_of-worse false false false false true _ = refl
icon_of-worse false false false false false true = refl
icon_of-worse false false false false false false = refl

abbrev has_either : Text → Text → List Text → Bool
has_either s t tags = has tags s || has tags t

has_either-append :
    (s t : Text) (xs ys : List Text)
    → has_either s t (xs ++ ys) ≡ (has_either s t xs || has_either s t ys)
has_either-append s t xs ys = ground (arith, has-append xs ys s, has-append xs ys t)

abbrev has_failure : List Text → Bool
has_failure tags = has tags (codes "failed") || has_either (codes "error") (codes "security") tags

has_failure-append :
    (xs ys : List Text) → has_failure (xs ++ ys) ≡ (has_failure xs || has_failure ys)
has_failure-append xs ys = ground (
  arith,
  has-append xs ys (codes "failed"),
  has_either-append (codes "error") (codes "security") xs ys,
)

-- The icon of two lists of tags together is the worse one of their icons; so it depends on no order
-- and on no repetition.
pub notification_icon-append :
    (xs ys : List Text)
    → notification_icon (xs ++ ys) ≡ worse (notification_icon xs) (notification_icon ys)
unfolding notification_icon text_eq
notification_icon-append xs ys =
    rw
      (
        has_failure-append xs ys,
        has_either-append (codes "timeout") (codes "warning") xs ys,
        has_either-append (codes "completed") (codes "success") xs ys,
      )
      (icon_of-worse _ _ _ _ _ _)

none_ne : (c : ℕ) → Path (Option ℕ) none (some c) → ⊥
none_ne c e = cc

some_injective : (a b : ℕ) → Path (Option ℕ) (some a) (some b) → a ≡ b
some_injective a b e = cc

no_elem : (c : ℕ) → get_elem? [] c ≢ some false
no_elem zero e = cc
no_elem (suc c) e = cc

-- No stream is live.
abbrev NoLive : List Bool → Type 0
NoLive cells = (c : ℕ) → get_elem? cells c ≢ some false

set-NoLive :
    (cells : List Bool) (c : ℕ)
    → ((j : ℕ) → get_elem? cells j ≡ some false → c ≡ j)
    → NoLive (set cells c true)
set-NoLive [] c h j e = absurd (cc)
set-NoLive (b ∷ cells) zero h zero e = absurd (cc)
set-NoLive (b ∷ cells) zero h (suc j) e = absurd (omega (arith, h (suc j) e))
set-NoLive (b ∷ cells) (suc c) h zero e = absurd (omega (arith, h zero e))
set-NoLive (b ∷ cells) (suc c) h (suc j) e =
    set-NoLive cells c (λ k r. omega (arith, h (suc k) r)) j e

append-live :
    (cells : List Bool) (j : ℕ)
    → NoLive cells
    → (get_elem? (cells ++ false ∷ []) j ≡ some false) ↔ (length cells ≡ j)
append-live [] zero h = (λ _. refl, λ _. refl)
append-live [] (suc j) h = (λ e. absurd (cc), λ e. absurd (omega arith))
append-live (b ∷ cells) zero h = (λ e. absurd (h zero e), λ e. absurd (omega arith))
append-live (b ∷ cells) (suc j) h =
    let rest = append-live cells j (λ c. h (suc c)) in
    (λ e. omega (arith, rest.0 e), λ e. rest.1 (omega arith))

module _ {N : Type 0} where
  -- The stream of the current controller, and no other one, is live.
  abbrev pub IsCurrent : State N → Type 0
  IsCurrent t = (c : ℕ) → (get_elem? t.aborted c ≡ some false) ↔ (t.abort_controller ≡ some c)

  disconnect-NoLive : (t : State N) → IsCurrent t → NoLive ((disconnect t).aborted)
  unfolding disconnect
  disconnect-NoLive t h = elim (Option-cases t.abort_controller) [
    | inl e ↦ rw e (λ j r. none_ne j (sym e ∙ (h j).0 r))
    | inr (c, e) ↦ rw e (set-NoLive t.aborted c (λ j r. some_injective c j (sym e ∙ (h j).0 r)))
  ]

  disconnect-IsCurrent : (t : State N) → IsCurrent t → IsCurrent (disconnect t)
  unfolding disconnect
  disconnect-IsCurrent t h c = (λ e. absurd (disconnect-NoLive t h c e), λ e. absurd (none_ne c e))

  connect-IsCurrent : (t : State N) → IsCurrent t → IsCurrent (connect t)
  unfolding connect
  connect-IsCurrent t h c =
      let live = append-live (disconnect t).aborted c (disconnect-NoLive t h) in
      (λ e. ap some (live.0 e), λ e. live.1 (some_injective _ c e))

  on_sse_error-IsCurrent : (c : ℕ) (t : State N) → IsCurrent t → IsCurrent (on_sse_error c t)
  unfolding on_sse_error
  on_sse_error-IsCurrent c t h = elim (Bool-cases (is_aborted c t)) [
    | inl e ↦ rw e h
    | inr e ↦ rw e h
  ]

  step-IsCurrent : (e : Event N) (t : State N) → IsCurrent t → IsCurrent (step e t)
  unfolding step on_data
  step-IsCurrent connect_called t h = connect-IsCurrent t h
  step-IsCurrent disconnect_called t h = disconnect-IsCurrent t h
  step-IsCurrent (stream_yielded c granted item) t h = h
  step-IsCurrent (stream_failed c) t h = on_sse_error-IsCurrent c t h
  step-IsCurrent (stream_stopped c) t h = h

  keeps-IsCurrent : (es : List (Event N)) (t : State N) → IsCurrent t → IsCurrent (steps es t)
  unfolding steps
  keeps-IsCurrent [] t h = h
  keeps-IsCurrent (e ∷ es) t h = keeps-IsCurrent es (step e t) (step-IsCurrent e t h)

  -- However the page connects and disconnects and whatever the streams do, a controller is not aborted
  -- exactly if it is the current one.
  pub steps-IsCurrent : (es : List (Event N)) → IsCurrent (steps es initial)
  steps-IsCurrent es =
      keeps-IsCurrent es initial (λ c. (λ e. absurd (no_elem c e), λ e. absurd (none_ne c e)))

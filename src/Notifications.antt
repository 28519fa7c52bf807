-- ===== src/Notifications.antt =====
-- The notifications that the API pushes: frontend/src/lib/notifications/stream.svelte.ts, as a state
-- and a step for each call and each event of a stream, and the icons of display.ts.
pub mod Laws
pub mod Page
pub mod Center
mod Examples
use Prim.Native.String.{String}
use integr8s_code.Base.{
  ℕ, Bool, true, false, ◌||◌, Option, none, some, List, [], ◌∷◌, ◌++◌, if◌then◌else◌, Text, codes,
  text_eq, any, length, get_elem?, set,
}

pub data Icon : Type 0 where
  circle_alert triangle_alert circle_check info : Icon

-- `new Set(tags).has(tag)`
abbrev pub has : List Text → Text → Bool
has tags tag = any (text_eq tag) tags

unfoldable pub notification_icon : List Text → Icon
unfolding text_eq
notification_icon tags =
    if has tags (codes "failed") || (has tags (codes "error") || has tags (codes "security"))
    then circle_alert
    else if has tags (codes "timeout") || has tags (codes "warning")
    then triangle_alert
    else if has tags (codes "completed") || has tags (codes "success")
    then circle_check
    else info

-- What a stream makes happen: the callback of the call of `connect` that began it, a notification of
-- the browser, and the log.
pub data Effect (N : Type 0) : Type 0 where
  callback : (stream : ℕ) → N → Effect N
  notification : N → Effect N
  lost_connection : Effect N
  stopped : Effect N

-- A controller is its place in `aborted`, and names the stream that it was made for.
pub record State (N : Type 0) : Type 0 where
  pub abort_controller : Option ℕ
  pub aborted : List Bool
  pub effects : List (Effect N)

pub data Event (N : Type 0) : Type 0 where
  connect_called disconnect_called : Event N
  stream_yielded : (stream : ℕ) → (granted : Bool) → N → Event N
  stream_failed : (stream : ℕ) → Event N
  stream_stopped : (stream : ℕ) → Event N

abort : Option ℕ → List Bool → List Bool
abort none cells = cells
abort (some c) cells = set cells c true

module _ {N : Type 0} where
  abbrev pub initial : State N
  initial = record { abort_controller = none; aborted = []; effects = [] }

  unfoldable pub disconnect : State N → State N
  unfolding abort
  disconnect t = record t { abort_controller = none; aborted = abort t.abort_controller t.aborted }

  unfoldable pub connect : State N → State N
  unfolding disconnect
  connect t =
      let u = disconnect t in
      record u { abort_controller = some (length u.aborted); aborted = u.aborted ++ false ∷ [] }

  abbrev pub is_aborted : ℕ → State N → Bool
  is_aborted c t = elim (get_elem? t.aborted c) [ some b ↦ b | none ↦ false ]

  -- One round of the `for await`; `granted` is whether the browser lets the page notify.
  unfoldable pub on_data : ℕ → Bool → N → State N → State N
  on_data c granted item t = record t {
    effects = t.effects ++ callback c item ∷ (if granted then notification item ∷ [] else []);
  }

  -- `onSseError`
  unfoldable pub on_sse_error : ℕ → State N → State N
  on_sse_error c t =
      if is_aborted c t then t else record t { effects = t.effects ++ lost_connection ∷ [] }

  unfoldable pub step : Event N → State N → State N
  unfolding connect disconnect on_data on_sse_error
  step connect_called t = connect t
  step disconnect_called t = disconnect t
  step (stream_yielded c granted item) t = on_data c granted item t
  step (stream_failed c) t = on_sse_error c t
  step (stream_stopped c) t = record t { effects = t.effects ++ stopped ∷ [] }

  unfoldable pub steps : List (Event N) → State N → State N
  unfolding step
  steps [] t = t
  steps (e ∷ es) t = steps es (step e t)

-- ===== src/Notifications/Center.antt =====
-- The menu of the newest notifications, the script of frontend/src/components/NotificationCenter.svelte.
-- It reads notifications by itself when it stays open; the delay is left out, and the timer's end is
-- an event. The stream that it connects is the state of `Notifications`.
pub mod Reading
mod Examples
use integr8s_code.Base.{
  ℕ, Bool, true, false, not, ◌&&◌, ◌==◌, Option, none, some, List, [], ◌∷◌, ◌++◌, map,
  if◌then◌else◌, take, is_empty, Text,
}

pub data NotificationStatus : Type 0 where
  pending queued sending delivered failed read clicked : NotificationStatus

-- The fields of a notification that the menu looks into.
pub record NotificationResponse : Type 0 where
  pub notification_id : Text
  pub status : NotificationStatus
  pub action_url : Option Text

-- `timer` tells whether the timer that reads notifications runs.
pub record Center : Type 0 where
  pub show_dropdown : Bool
  pub notifications : List NotificationResponse
  pub unread_count : ℕ
  pub timer : Bool

pub data Effect : Type 0 where
  mark_read : (notification_id : Text) → Effect
  mark_all_read refresh_notifications : Effect
  match_route goto : Text → Effect

-- `matched` is `match`'s answer, the place of the route if there is one.
pub data Event : Type 0 where
  dropdown_set : Bool → Event
  list_loaded : List NotificationResponse → (unread_count : ℕ) → Event
  timer_fired mark_all_clicked all_marked marked : Event
  notification_clicked : NotificationResponse → Event
  matched : (location : Option Text) → Event

abbrev pub initial : Center
initial = record { show_dropdown = false; notifications = []; unread_count = 0; timer = false }

abbrev pub is_read : NotificationStatus → Bool
is_read read = true
is_read _ = false

unfoldable pub mark_as_read : NotificationResponse → List Effect
mark_as_read n = if is_read n.status then [] else mark_read n.notification_id ∷ []

abbrev pub same_bool : Bool → Bool → Bool
same_bool true b = b
same_bool false b = not b

-- The effect that keeps the timer: it runs again when what it reads has changed, and begins by
-- clearing the timer that it left.
unfoldable pub keep_timer : (before after : Center) → Center
keep_timer before after =
    if same_bool before.show_dropdown after.show_dropdown
      && before.unread_count == after.unread_count
    then after
    else record after { timer = after.show_dropdown && not (after.unread_count == 0) }

unfoldable pub each_marked : List NotificationResponse → List Effect
unfolding mark_as_read
each_marked [] = []
each_marked (n ∷ ns) = mark_as_read n ++ each_marked ns

unfoldable pub on_timer : Center → Center × List Effect
unfolding each_marked
on_timer c =
    if c.timer
    then (
      record c { timer = false },
      if not c.show_dropdown then [] else each_marked (take 5 c.notifications),
    )
    else (c, [])

abbrev open_page : Option Text → List Effect
open_page none = []
open_page (some url) = if is_empty url then [] else match_route url ∷ []

unfoldable pub on_click : NotificationResponse → List Effect
unfolding mark_as_read
on_click n = mark_as_read n ++ open_page n.action_url

unfoldable pub on_matched : Option Text → Center → Center × List Effect
unfolding keep_timer
on_matched none c = (c, [])
on_matched (some location) c =
    (keep_timer c (record c { show_dropdown = false }), goto location ∷ [])

unfoldable pub step : Event → Center → Center × List Effect
unfolding keep_timer on_timer on_click on_matched
step (dropdown_set b) c = (keep_timer c (record c { show_dropdown = b }), [])
step (list_loaded ns unread) c =
    (keep_timer c (record c { notifications = ns; unread_count = unread }), [])
step timer_fired c = on_timer c
step mark_all_clicked c = (c, mark_all_read ∷ [])
step all_marked c = (keep_timer c (record c { show_dropdown = false }), refresh_notifications ∷ [])
step marked c = (c, refresh_notifications ∷ [])
step (notification_clicked n) c = (c, on_click n)
step (matched location) c = on_matched location c

unfoldable pub steps : List Event → Center → Center
unfolding step
steps [] c = c
steps (e ∷ es) c = steps es (step e c).0

-- `Notification.permission`, of the browser's notifications.
pub data Permission : Type 0 where
  default granted denied : Permission

-- The permission to begin with; `none` is a browser without notifications.
unfoldable pub permission_at_start : Option Permission → Permission
permission_at_start none = denied
permission_at_start (some p) = p

-- `requestNotificationPermission`, with what the browser answers.
unfoldable pub request_permission : (answer : Option Permission) → Permission → Permission
request_permission none p = p
request_permission (some answer) p = answer

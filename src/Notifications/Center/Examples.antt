-- ===== src/Notifications/Center/Examples.antt =====
-- A menu that is opened and stays open.
use integr8s_code.Base.{
  ◌≡◌, ◌≤◌, refl, true, false, none, some, ◌==◌, is_empty, length, List, [], ◌∷◌, codes, All,
}
use integr8s_code.Notifications.Center.{
  NotificationResponse, Event, read, delivered, mark_read, initial, steps, list_loaded,
  dropdown_set,
}
use integr8s_code.Notifications.Center.Reading.{ReadsOneOf, sent, step-ReadsOneOf}

abbrev old : NotificationResponse
old = record { notification_id = codes "1"; status = read; action_url = none }

abbrev new : NotificationResponse
new = record {
  notification_id = codes "2";
  status = delivered;
  action_url = some (codes "/editor");
}

abbrev events : List Event
events = list_loaded (old ∷ new ∷ []) 1 ∷ dropdown_set true ∷ []

sent-run : sent (steps events initial) ≡ mark_read (codes "2") ∷ []
unfolding steps
sent-run = refl

step-ReadsOneOf_example :
    let c = steps events initial in
    (length (sent c) ≤ 5)
    × All (ReadsOneOf 5 c.notifications) (sent c)
    × (is_empty (sent c) ≡ false → (c.show_dropdown ≡ true) × ((c.unread_count == 0) ≡ false))
step-ReadsOneOf_example = step-ReadsOneOf events

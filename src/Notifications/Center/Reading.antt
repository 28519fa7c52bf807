-- ===== src/Notifications/Center/Reading.antt =====
-- What the menu reads by itself.
use integr8s_code.Base.{
  ℕ, zero, suc, ◌≤◌, ◌<◌, ◌≡◌, refl, true, false, Bool-cases, inl, inr, not, ◌||◌, ◌&&◌, ◌==◌, none,
  some, List, [], ◌∷◌, take, length, length-take, get_elem?, is_empty, All, All-append, arith,
}
use integr8s_code.Notifications.Center.{
  NotificationResponse, Center, Effect, Event, mark_read, timer_fired, initial, is_read,
  mark_as_read, keep_timer, each_marked, on_timer, on_matched, step, steps, dropdown_set,
  list_loaded, matched, all_marked,
}

-- The timer runs only while the menu is open and something is unread.
abbrev pub IsKept : Center → Type 0
IsKept c = (not c.timer || c.show_dropdown && not (c.unread_count == 0)) ≡ true

keep_timer-IsKept : (c d : Center) → IsKept c → d.timer ≡ c.timer → IsKept (keep_timer c d)
unfolding keep_timer
keep_timer-IsKept c d k e = ground arith

step-IsKept : (e : Event) (c : Center) → IsKept c → IsKept (step e c).0
unfolding step on_timer on_matched
step-IsKept (dropdown_set b) c k = keep_timer-IsKept c (record c { show_dropdown = b }) k refl
step-IsKept (list_loaded ns u) c k =
    keep_timer-IsKept c (record c { notifications = ns; unread_count = u }) k refl
step-IsKept all_marked c k = keep_timer-IsKept c (record c { show_dropdown = false }) k refl
step-IsKept (matched none) c k = k
step-IsKept (matched (some l)) c k = keep_timer-IsKept c (record c { show_dropdown = false }) k refl
step-IsKept timer_fired c k = ground arith
step-IsKept _ c k = k

pub steps-IsKept : (es : List Event) (c : Center) → IsKept c → IsKept (steps es c)
unfolding steps
steps-IsKept [] c k = k
steps-IsKept (e ∷ es) c k = steps-IsKept es (step e c).0 (step-IsKept e c k)

length-each_marked : (ns : List NotificationResponse) → length (each_marked ns) ≤ length ns
unfolding each_marked mark_as_read
length-each_marked [] = ground arith
length-each_marked (n ∷ ns) = ground (arith, length-each_marked ns)

length-take_five : {A : Type 0} (xs : List A) → length (take 5 xs) ≤ 5
length-take_five xs = ground (arith, length-take 5 xs)

All-weaken :
    {A : Type 0} (P Q : A → Type 0) (f : (x : A) → P x → Q x) (xs : List A) → All P xs → All Q xs
All-weaken P Q f [] h = tt
All-weaken P Q f (x ∷ xs) h = (f x h.0, All-weaken P Q f xs h.1)

-- The request reads a notification that is unread, among the first `k` of the list.
abbrev pub ReadsOneOf : ℕ → List NotificationResponse → Effect → Type 0
ReadsOneOf k ns x =
    (i : ℕ) × (n : NotificationResponse) × (i < k)
    × (get_elem? ns i ≡ some n)
    × (is_read n.status ≡ false)
    × (x ≡ mark_read n.notification_id)

later_one :
    (k : ℕ) (m : NotificationResponse) (ns : List NotificationResponse) (x : Effect)
    → ReadsOneOf k ns x
    → ReadsOneOf (suc k) (m ∷ ns) x
later_one k m ns x (i, n, b, g, u, e) = (suc i, n, ground arith, g, u, e)

first_one :
    (k : ℕ) (n : NotificationResponse) (ns : List NotificationResponse)
    → All (ReadsOneOf (suc k) (n ∷ ns)) (mark_as_read n)
unfolding mark_as_read
first_one k n ns = elim (Bool-cases (is_read n.status)) [
  | inl e ↦ rw (mark_as_read, e) tt
  | inr e ↦ rw (mark_as_read, e) ((0, n, ground arith, refl, e, refl), tt)
]

each_marked-take :
    (k : ℕ) (ns : List NotificationResponse) → All (ReadsOneOf k ns) (each_marked (take k ns))
unfolding each_marked
each_marked-take zero ns = tt
each_marked-take (suc k) [] = tt
each_marked-take (suc k) (n ∷ ns) =
    All-append _ (mark_as_read n) (each_marked (take k ns)) (first_one k n ns) (
      All-weaken (ReadsOneOf k ns) (ReadsOneOf (suc k) (n ∷ ns)) (later_one k n ns)
        (each_marked (take k ns)) (each_marked-take k ns))

-- What the end of the timer sends.
abbrev pub sent : Center → List Effect
sent c = (step timer_fired c).1

length-sent : (c : Center) → length (sent c) ≤ 5
unfolding step on_timer
length-sent c =
    ground (arith, length-each_marked (take 5 c.notifications), length-take_five c.notifications)

sent_ones : (c : Center) → All (ReadsOneOf 5 c.notifications) (sent c)
unfolding step on_timer
sent_ones c = elim (Bool-cases c.timer) [
  | inr e ↦ rw (step, on_timer, e) tt
  | inl e ↦ elim (Bool-cases c.show_dropdown) [
    | inr f ↦ rw (step, on_timer, e, f) tt
    | inl f ↦ rw (step, on_timer, e, f) (each_marked-take 5 c.notifications)
  ]
]

sent_kept :
    (c : Center)
    → IsKept c
    → is_empty (sent c) ≡ false
    → (c.show_dropdown ≡ true) × ((c.unread_count == 0) ≡ false)
unfolding step on_timer
sent_kept c k h = ground arith

-- Whatever happened before, the menu reads by itself only while it is open and something is unread,
-- and then at most five notifications, each one of the first five of the list and unread.
pub step-ReadsOneOf :
    (es : List Event)
    → let c = steps es initial in
      (length (sent c) ≤ 5)
      × All (ReadsOneOf 5 c.notifications) (sent c)
      × (is_empty (sent c) ≡ false → (c.show_dropdown ≡ true) × ((c.unread_count == 0) ≡ false))
step-ReadsOneOf es =
    let c = steps es initial in
    (length-sent c, sent_ones c, sent_kept c (steps-IsKept es initial refl))

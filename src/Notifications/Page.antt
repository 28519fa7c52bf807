-- ===== src/Notifications/Page.antt =====
-- The page that lists all notifications, the script of
-- frontend/src/routes/(auth)/notifications/+page.svelte: the tags it filters by, and what it asks of
-- the API. An answer of the API is an event.
pub mod Tags
pub mod Deleting
mod Examples
use integr8s_code.Base.{
  ℕ, ◌+◌, Bool, true, false, not, ◌||◌, ◌==◌, ◌&&◌, Option, none, some, List, [], ◌∷◌, ◌++◌, map,
  if◌then◌else◌, is_empty, is_space, Text, codes, text_eq, trim,
}
use integr8s_code.Base.{filter}
use integr8s_code.Notifications.Center.{NotificationStatus, is_read}

-- `[\s,]`
unfoldable pub is_separator : ℕ → Bool
unfolding is_space
is_separator c = is_space c || c == b','

begins_with_separator : Text → Bool
begins_with_separator [] = false
begins_with_separator (c ∷ s) = is_separator c

-- A code unit put in front of the first piece.
abbrev pub onto_first : ℕ → List Text → List Text
onto_first c [] = (c ∷ []) ∷ []
onto_first c (piece ∷ pieces) = (c ∷ piece) ∷ pieces

-- `input.split(/[\s,]+/)`: the pieces between the longest runs of separators.
unfoldable pub split_pieces : Text → List Text
unfolding begins_with_separator
split_pieces [] = [] ∷ []
split_pieces (c ∷ s) =
    let rest = split_pieces s in
    if is_separator c
    then (if begins_with_separator s then rest else [] ∷ rest)
    else onto_first c rest

abbrev non_empty : Text → Bool
non_empty s = not (is_empty s)

unfoldable pub parse_tags : Text → List Text
unfolding split_pieces trim filter
parse_tags input = filter non_empty (map trim (split_pieces input))

-- What the list's query takes besides the limit; `undefined` is `none`.
pub record TagFilters : Type 0 where
  pub include_tags : Option (List Text)
  pub exclude_tags : Option (List Text)
  pub tag_prefix : Option Text

-- `deleting` holds what the latest deletion was called with, and its number, while it is pending.
pub record Page : Type 0 where
  pub include_tags_input : Text
  pub exclude_tags_input : Text
  pub tag_prefix_input : Text
  pub filters : TagFilters
  pub deletions : ℕ
  pub deleting : Option (ℕ × Text)

pub data Effect : Type 0 where
  success : Text → Effect
  refresh_notifications mark_all_read : Effect
  mark_read : (notification_id : Text) → Effect
  delete : (notification_id : Text) → Effect

-- `deleted` is the success of a call, before its refresh; `delete_settled` its end either way.
pub data Event : Type 0 where
  inputs_edited : (include_tags exclude_tags tag_prefix : Text) → Event
  apply_clicked mark_all_clicked all_marked marked deleted : Event
  mark_clicked : (notification_id : Text) → NotificationStatus → Event
  delete_clicked : (notification_id : Text) → Event
  delete_settled : (call : ℕ) → Event

trimmed_or_none : Text → Option Text
unfolding trim
trimmed_or_none s = let t = trim s in if is_empty t then none else some t

unfoldable pub apply_filters : Page → Page
unfolding parse_tags trimmed_or_none
apply_filters p = record p {
  filters = record {
    include_tags = some (parse_tags p.include_tags_input);
    exclude_tags = some (parse_tags p.exclude_tags_input);
    tag_prefix = trimmed_or_none p.tag_prefix_input;
  };
}

-- Only the latest call is the one that the page knows of.
unfoldable pub is_deleting : Text → Page → Bool
unfolding text_eq
is_deleting id p = elim p.deleting [ some call ↦ text_eq call.1 id | none ↦ false ]

unfoldable pub delete_notification : Text → Page → Page × List Effect
unfolding is_deleting
delete_notification id p = if is_deleting id p then (p, []) else (
  record p { deletions = p.deletions + 1; deleting = some (p.deletions, id) },
  delete id ∷ [],
)

mark_as_read : Text → NotificationStatus → List Effect
mark_as_read id status = if is_read status then [] else mark_read id ∷ []

abbrev after_settled : (call : ℕ) → Option (ℕ × Text) → Option (ℕ × Text)
after_settled call none = none
after_settled call (some now) = if now.0 == call then none else some now

unfoldable pub step : Event → Page → Page × List Effect
unfolding apply_filters delete_notification mark_as_read
step (inputs_edited include exclude prefix) p = (
  record p {
    include_tags_input = include;
    exclude_tags_input = exclude;
    tag_prefix_input = prefix;
  },
  [],
)
step apply_clicked p = (apply_filters p, [])
step mark_all_clicked p = (p, mark_all_read ∷ [])
step all_marked p =
    (p, success (codes "All notifications marked as read") ∷ refresh_notifications ∷ [])
step marked p = (p, refresh_notifications ∷ [])
step deleted p = (p, success (codes "Notification deleted") ∷ refresh_notifications ∷ [])
step (mark_clicked id status) p = (p, mark_as_read id status)
step (delete_clicked id) p = delete_notification id p
step (delete_settled call) p = (record p { deleting = after_settled call p.deleting }, [])

-- The page after the events, and all that it did, in order.
unfoldable pub steps : List Event → Page → Page × List Effect
unfolding step
steps [] p = (p, [])
steps (e ∷ es) p = let now = step e p in let later = steps es now.0 in (later.0, now.1 ++ later.1)

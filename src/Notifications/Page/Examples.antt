-- ===== src/Notifications/Page/Examples.antt =====
-- Runs of the notifications page.
use integr8s_code.Base.{◌≡◌, refl, none, List, [], ◌∷◌, codes, filter}
use integr8s_code.Notifications.Page.{
  Page, Event, delete, delete_clicked, deleted, is_separator, parse_tags, is_deleting, steps,
}
use integr8s_code.Notifications.Page.Deleting.{deletions, deletions-delete_clicked}

tags-run : parse_tags (codes " execution,, completed,") ≡ codes "execution" ∷ codes "completed" ∷ []
unfolding parse_tags is_separator
tags-run = refl

abbrev page : Page
page = record {
  include_tags_input = [];
  exclude_tags_input = [];
  tag_prefix_input = [];
  filters = record { include_tags = none; exclude_tags = none; tag_prefix = none };
  deletions = 0;
  deleting = none;
}

abbrev clicks : List Event
clicks = delete_clicked (codes "a") ∷ deleted ∷ delete_clicked (codes "a") ∷ []

deletions-delete_clicked_example :
    deletions (delete_clicked (codes "a") ∷ clicks) page ≡ delete (codes "a") ∷ []
unfolding is_deleting
deletions-delete_clicked_example = deletions-delete_clicked (codes "a") clicks page refl refl

-- The page forgets the first of two deletions, and sends it again.
deleted_again :
    deletions
      (delete_clicked (codes "a") ∷ delete_clicked (codes "b") ∷ delete_clicked (codes "a") ∷ [])
      page
    ≡ delete (codes "a") ∷ delete (codes "b") ∷ delete (codes "a") ∷ []
unfolding filter steps
deleted_again = refl

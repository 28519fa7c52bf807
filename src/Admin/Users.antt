-- ===== src/Admin/Users.antt =====
-- The list of users: the script of frontend/src/routes/admin/users/+page.svelte, and the button of
-- frontend/src/components/admin/users/UserFilters.svelte that resets its filters.
pub mod Filtering
use integr8s_code.Base.{
  ℕ, ◌*◌, Bool, true, false, not, ◌||◌, Option, none, some, is_some, List, [], ◌∷◌, if◌then◌else◌,
  is_empty, Text,
}
use integr8s_code.Api.{UserRole}
use integr8s_code.Guards.{UserResponse}

-- `null` is `none`.
pub record UserListFilters : Type 0 where
  pub search : Option Text
  pub role : Option UserRole
  pub is_active : Option Bool
  pub bypass_rate_limit : Option Bool
  pub has_custom_limits : Option Bool
  pub custom_multiplier : Option Bool

pub data Dialog : Type 0 where
  closed create : Dialog
  edit delete rate_limits : UserResponse → Dialog

pub record Page : Type 0 where
  pub dialog : Dialog
  pub filters : UserListFilters
  pub show_advanced_filters : Bool
  pub page_size : ℕ
  pub page_index : ℕ

pub record UsersQuery : Type 0 where
  pub filters : UserListFilters
  pub limit : ℕ
  pub offset : ℕ

abbrev pub no_filters : UserListFilters
no_filters = record {
  search = none;
  role = none;
  is_active = none;
  bypass_rate_limit = none;
  has_custom_limits = none;
  custom_multiplier = none;
}

abbrev pub initial : Page
initial = record {
  dialog = closed;
  filters = no_filters;
  show_advanced_filters = false;
  page_size = 10;
  page_index = 0;
}

-- `filters.search || null`
search_or_null : Option Text → Option Text
search_or_null none = none
search_or_null (some s) = if is_empty s then none else some s

unfoldable pub users_query : Page → UsersQuery
unfolding search_or_null
users_query p = record {
  filters = record p.filters { search = search_or_null p.filters.search };
  limit = p.page_size;
  offset = p.page_index * p.page_size;
}

is_non_empty : Option Text → Bool
is_non_empty none = false
is_non_empty (some s) = not (is_empty s)

unfoldable pub has_filters_active : UserListFilters → Bool
unfolding is_non_empty
has_filters_active f =
    is_non_empty f.search
    || (is_some f.role
        || (is_some f.is_active
            || (is_some f.bypass_rate_limit
                || (is_some f.has_custom_limits || is_some f.custom_multiplier))))

-- `filters_changed` is an edit that changes a value: only then is the page's index derived again.
pub data Event : Type 0 where
  filters_changed : UserListFilters → Event
  reset_clicked advanced_toggled : Event
  paged : (page_index page_size : ℕ) → Event
  dialog_set : Dialog → Event

-- The button is disabled when no filter is active.
unfoldable pub reset : Page → Page
unfolding has_filters_active
reset p =
    if has_filters_active p.filters then record p { filters = no_filters; page_index = 0 } else p

unfoldable pub step : Event → Page → Page
unfolding reset
step (filters_changed f) p = record p { filters = f; page_index = 0 }
step reset_clicked p = reset p
step advanced_toggled p = record p { show_advanced_filters = not p.show_advanced_filters }
step (paged index size) p = record p { page_size = size; page_index = index }
step (dialog_set dialog) p = record p { dialog = dialog }

unfoldable pub steps : List Event → Page → Page
unfolding step
steps [] p = p
steps (e ∷ es) p = steps es (step e p)

-- ===== src/Admin/Executions.antt =====
-- The page of all executions: the scripts of frontend/src/routes/admin/executions/+page.svelte and
-- frontend/src/components/admin/executions/ExecutionsTable.svelte.
use integr8s_code.Base.{
  ℕ, ◌*◌, Option, none, some, List, [], ◌∷◌, ◌++◌, if◌then◌else◌, Text, codes, is_empty,
}
use integr8s_code.Api.{ExecutionStatus}

pub data QueuePriority : Type 0 where
  critical high normal low background : QueuePriority

unfoldable pub priority_text : QueuePriority → Text
priority_text critical = codes "critical"
priority_text high = codes "high"
priority_text normal = codes "normal"
priority_text low = codes "low"
priority_text background = codes "background"

-- `null` is `none`.
pub record ExecutionFilters : Type 0 where
  pub status : Option ExecutionStatus
  pub priority : Option QueuePriority
  pub user_id : Option Text

abbrev pub no_filters : ExecutionFilters
no_filters = record { status = none; priority = none; user_id = none }

pub record Page : Type 0 where
  pub filters : ExecutionFilters
  pub page_size : ℕ
  pub page_index : ℕ

abbrev pub initial : Page
initial = record { filters = no_filters; page_size = 20; page_index = 0 }

pub record ListQuery : Type 0 where
  pub filters : ExecutionFilters
  pub limit : ℕ
  pub skip : ℕ

-- `filters.user_id || null`
user_or_null : Option Text → Option Text
user_or_null none = none
user_or_null (some s) = if is_empty s then none else some s

unfoldable pub list_query : Page → ListQuery
unfolding user_or_null
list_query p = record {
  filters = record p.filters { user_id = user_or_null p.filters.user_id };
  limit = p.page_size;
  skip = p.page_index * p.page_size;
}

pub data Effect : Type 0 where
  update_priority : (execution_id : Text) → QueuePriority → Effect
  success : Text → Effect
  refresh_list refresh_queue : Effect

-- `filters_changed` is an edit that changes a value; `prioritized` is the API's answer.
pub data Event : Type 0 where
  filters_changed : ExecutionFilters → Event
  reset_clicked refresh_clicked : Event
  paged : (page_index page_size : ℕ) → Event
  priority_chosen : (execution_id : Text) → QueuePriority → Event
  prioritized : QueuePriority → Event

unfoldable pub step : Event → Page → Page × List Effect
unfolding priority_text
step (filters_changed f) p = (record p { filters = f; page_index = 0 }, [])
step reset_clicked p = (record p { filters = no_filters; page_index = 0 }, [])
step refresh_clicked p = (p, refresh_list ∷ refresh_queue ∷ [])
step (paged index size) p = (record p { page_index = index; page_size = size }, [])
step (priority_chosen id priority) p = (p, update_priority id priority ∷ [])
step (prioritized priority) p = (
  p,
  success (codes "Priority updated to " ++ priority_text priority)
      ∷ refresh_list
      ∷ refresh_queue
      ∷ [],
)

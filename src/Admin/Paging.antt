-- ===== src/Admin/Paging.antt =====
-- The rows that a table shows: frontend/src/components/Pagination.svelte.
pub mod Ranges
use integr8s_code.Base.{ℕ, ◌+◌, ◌*◌, min, ltb, Option, none, some, if◌then◌else◌}

pub record Pagination : Type 0 where
  pub page_index : ℕ
  pub page_size : ℕ

-- `start` and `end`.
pub record Range : Type 0 where
  pub first : ℕ
  pub last : ℕ

unfoldable pub range : Pagination → (row_count : ℕ) → Range
range p row_count = record {
  first = min (p.page_index * p.page_size + 1) row_count;
  last = min ((p.page_index + 1) * p.page_size) row_count;
}

-- The line is there if there are rows.
unfoldable pub shown : Pagination → (row_count : ℕ) → Option Range
unfolding range
shown p row_count = if ltb 0 row_count then some (range p row_count) else none

-- ===== src/Admin.antt =====
-- The tables of the admin pages under frontend/src/routes/admin: the list of users and the line that
-- tells which rows are shown.
pub mod Paging
pub mod Users
pub mod RateLimits
pub mod Dialogs
pub mod Executions
pub mod System
mod Examples

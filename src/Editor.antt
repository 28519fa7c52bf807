-- ===== src/Editor.antt =====
-- The editor's logic, frontend/src/lib/editor: the runs of scripts (`Editor.Execution`), the
-- runtime that a script runs on (`Editor.Runtime`) and the script that is open (`Editor.Scripts`).
pub mod Execution
pub mod Runtime
pub mod Scripts

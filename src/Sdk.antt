-- ===== src/Sdk.antt =====
-- The calls that the generated SDK makes, and the cache keys of its queries:
-- frontend/src/lib/api/sdk.gen.ts and frontend/src/lib/api/@tanstack/svelte-query.gen.ts.
pub mod Endpoints
pub mod Operations
pub mod Templates
pub mod Paths
pub mod Keys
mod Examples

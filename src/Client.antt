-- ===== src/Client.antt =====
-- The API client that the SDK's calls go through: frontend/src/lib/api/client.
pub mod Values
pub mod Percent
pub mod Parameters
pub mod Path
pub mod Url
pub mod Auth
pub mod Bodies
pub mod Flat
pub mod Results
pub mod ParseAs
pub mod Configuration
pub mod Request
pub mod Methods
pub mod Interceptors
mod Examples
pub mod Merging

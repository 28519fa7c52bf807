-- ===== src/Sdk/Operations.antt =====
-- The operations of the API: the functions of frontend/src/lib/api/sdk.gen.ts.
pub mod Account
pub mod Executions
pub mod Admin
pub mod Users
pub mod Settings
use integr8s_code.Base.{List, ◌++◌}
use integr8s_code.Sdk.Endpoints.{Endpoint}

abbrev pub operations : List Endpoint
operations =
    Account.operations
    ++ (Executions.operations ++ (Admin.operations ++ (Users.operations ++ Settings.operations)))

-- ===== src/Lib.antt =====
-- The frontend of Integr8sCode (frontend/src): the parts of the browser application that decide
-- something, modelled and proved.
--
-- The frontend runs scripts and shows what the API answers. A page calls `execute` of the class
-- ExecutionState (frontend/src/lib/editor/execution.svelte.ts), which posts the script and follows an
-- event stream; the stream client (frontend/src/lib/api/core/serverSentEvents.gen.ts) reads the
-- events and connects again after a failure; failures of other calls pass the error interceptor
-- (frontend/src/lib/api-interceptors.ts) and the query client (frontend/src/lib/query-client.ts),
-- which retries or shows them; every request passes the interceptor that adds the CSRF header.
--
-- - Base and below: lists, texts, maps, integers over the native numbers.
-- - Api: the enumerations of frontend/src/lib/api/types.gen.ts that the code looks into.
-- - Editor.Execution: the state of ExecutionState, one function for each method and each `await`
--   that is answered, and `step` over the events that the page, the start request and the stream
--   make. Children: Invariant, Outcome, Overlap, Runs, Single, Flight.
-- - Editor.Runtime: pickRuntime of frontend/src/lib/editor/runtime.ts; child Offered.
-- - Editor.Scripts: the open script (frontend/src/lib/editor/draft.svelte.ts) and the file buttons
--   (frontend/src/components/editor/ScriptActions.svelte); children with proofs: Files, Saving.
--   Editor.Scripts.Workspace: everything that changes the open script, with SavedScripts.svelte,
--   LoadExample.svelte and LanguageSelect.svelte of the same folder; child Deleted.
-- - Sse: the line parser of createSseClient; Sse.Connection its reads, Sse.Reconnect its loop.
--   Children with proofs: Splitting, LineEnds, Framing, Encoding, Bounds, Backoff, Resume.
-- - Formatters: frontend/src/lib/formatters.ts; children with proofs: Titles, Truncation, Durations,
--   Ages. Validation: the wording of validation errors (frontend/src/lib/validation.ts).
-- - Events: the event browser's colours and filters (frontend/src/lib/admin/events/eventTypes.ts).
--   Events.Browser: the state of its page (frontend/src/routes/admin/events/+page.svelte); children
--   with proofs: Query, Confirmed. Events.Replay: the banner of a replay over its stream
--   (frontend/src/components/admin/events/ReplayProgressBanner.svelte); child Following.
-- - Client.Interceptors: the interceptor lists of frontend/src/lib/api/client; children Slots, Runs.
-- - Client: what createClient of the same folder makes of a call. Client.Parameters and Client.Path:
--   parameters and the path (frontend/src/lib/api/core/pathSerializer.gen.ts and utils.gen.ts);
--   Client.Url: the query and the URL; Client.Auth: credentials; Client.Configuration: settings;
--   Client.Methods: the functions that the client hands out;
--   Client.Request: the call from its options to its answer, with the children Preparing,
--   Interception, Reading and Sending. Children with proofs: Percent.Laws, Path.Filling,
--   Auth.Keeping, Request.Total, Request.Answers, Methods.Streams.
-- - Client.Bodies: the bodies of forms (frontend/src/lib/api/core/bodySerializer.gen.ts), child Pairs;
--   Client.Flat: buildClientParams (frontend/src/lib/api/core/params.gen.ts), children Writing, Placing.
-- - Client.Merging: mergeHeaders of frontend/src/lib/api/client/utils.gen.ts; child Values.
-- - Notifications: the class NotificationStream and the icons of frontend/src/lib/notifications.
--   Notifications.Center: the menu (frontend/src/components/NotificationCenter.svelte), child Reading;
--   Notifications.Page: the page frontend/src/routes/(auth)/notifications/+page.svelte, children Tags
--   and Deleting.
-- - Guards: the layouts under frontend/src/routes that check who is signed in; child Access.
--   Guards.Login: where the login (frontend/src/routes/login/+page.svelte) leads; child Returning;
--   Guards.Forms: the forms of the login and of frontend/src/routes/register/+page.svelte.
-- - Admin.Users: the list of users (frontend/src/routes/admin/users/+page.svelte), child Filtering;
--   Admin.Paging: the rows shown (frontend/src/components/Pagination.svelte), child Ranges;
--   Admin.RateLimits and Admin.Dialogs: the dialogs of frontend/src/components/admin/users, children
--   Rules and Passwords; Admin.Executions: frontend/src/routes/admin/executions/+page.svelte;
--   Admin.System: frontend/src/routes/admin/settings/+page.svelte.
-- - Session: who is signed in and whose data the query cache holds, over the effects of Errors, Shell
--   and Guards.Login; child Ownership.
-- - Settings: the settings page (frontend/src/routes/(auth)/settings/+page.svelte); child Saving.
-- - Shell: the menu, the logout and the theme (frontend/src/components/Header.svelte and
--   frontend/src/routes/+layout.svelte); child Themes.
-- - Startup: initializeApiInterceptors and the handlers of the query client, which put Client.Request,
--   Csrf and Errors together; children with proofs: Failures, Tokens.
-- - Sdk.Operations: the calls of frontend/src/lib/api/sdk.gen.ts, as data of the type of
--   Sdk.Endpoints; Sdk.Keys: keys and calls of frontend/src/lib/api/@tanstack/svelte-query.gen.ts.
--   With proofs: Sdk.Templates, Sdk.Paths, Sdk.Keys.Matching.
-- - Errors: showApiError, handle401, the error interceptor and the retry rule.
-- - Csrf: the request interceptor; Headers: the platform's Headers as far as it is used.
--
-- Texts that the code walks are lists of UTF-16 code units, others are strings. Loops recur on a
-- list: the reads of a connection, and the rounds of the reconnecting loop, one for each time that
-- it begins anew; a theorem ranges over every list, so no fuel is chosen. Numbers of milliseconds
-- and of attempts are whole; rounding of doubles above 2^53 is left out, and lies above every cap.
--
-- Parameters, which the code does not contain: TanStack's mutation observer (StartMutation, with its
-- documented behaviour), JSON.parse and the stream's validator and transformer (Decoder), the
-- browser's dates and date-fns (Platform), SvelteKit's resolve and URLSearchParams (Router), `===`
-- on interceptors, for the client Request, fetch, Response, JSON and btoa (World), SvelteKit's match
-- and URLSearchParams' get (Pages), what the interceptors see of a request and an error (Browser), the
-- schema of an uploaded script, the API's rules for a form's fields, the URL of an export, TanStack's
-- match of values in keys and its comparison of data, and the form library's comparison of a form's
-- sections and its verdict on a form.
-- Not modelled: markup, class names, the generated schemas and fakes, which have no logic of their own,
-- logging sinks, the Python backend.
pub mod Base
pub mod Headers
pub mod Api
pub mod Editor
pub mod Formatters
pub mod Validation
pub mod Events
pub mod Client
pub mod Notifications
pub mod Guards
pub mod Admin
pub mod Errors
pub mod Csrf
pub mod Sse
pub mod Sdk
pub mod Session
pub mod Settings
pub mod Shell
pub mod Startup

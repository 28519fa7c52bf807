-- ===== src/Sdk/Keys.antt =====
-- The cache keys of the SDK's queries, and the calls that queries and mutations make:
-- frontend/src/lib/api/@tanstack/svelte-query.gen.ts. The options of the infinite queries, which the
-- pages do not use, are left out.
pub mod Matching
use Prim.Native.String.{String}
use integr8s_code.Base.{
  Bool, true, false, not, ◌||◌, Option, none, some, List, [], ◌∷◌, ◌++◌, all, if◌then◌else◌,
  is_empty, Text, codes, text_eq, lookup,
}
use integr8s_code.Client.Values.{
  Value, undefined, null, boolean, number, bigint, string, callable, date, search_params, array,
  object,
}
use integr8s_code.Sdk.Endpoints.{Endpoint}

-- What a query's options give to its key; an option that is not given is `undefined`.
pub record KeyOptions : Type 0 where
  pub base_url : Option Text
  pub body : Value
  pub headers : Value
  pub path : Value
  pub query : Value

abbrev pub no_options : KeyOptions
no_options = record {
  base_url = none;
  body = undefined;
  headers = undefined;
  path = undefined;
  query = undefined;
}

-- The object that a key holds, as its entries.
abbrev pub QueryKey : Type 0
QueryKey = List (Text × Value)

unfoldable pub is_truthy : Value → Bool
unfolding text_eq
is_truthy undefined = false
is_truthy null = false
is_truthy (boolean b) = b
is_truthy (number s) = not (text_eq s (codes "0") || text_eq s (codes "NaN"))
is_truthy (bigint s) = not (text_eq s (codes "0"))
is_truthy (string s) = not (is_empty s)
is_truthy _ = true

-- `options?.baseUrl || client.getConfig().baseUrl`
abbrev base_or : Option Text → Option Text → Value
base_or (some (c ∷ url)) configured = string (c ∷ url)
base_or _ (some url) = string url
base_or _ none = undefined

abbrev pub entry_if : (name : String) → Value → QueryKey
entry_if name v = if is_truthy v then (codes name, v) ∷ [] else []

-- `createQueryKey`, for a client whose base URL is `configured`.
unfoldable pub create_query_key : (configured : Option Text) → (id : String) → KeyOptions → QueryKey
unfolding is_truthy
create_query_key configured id o =
    (codes "_id", string (codes id))
    ∷ (codes "baseUrl", base_or o.base_url configured)
    ∷ (entry_if "body" o.body
        ++ (entry_if "headers" o.headers ++ (entry_if "path" o.path ++ entry_if "query" o.query)))

-- The function `…QueryKey` of an operation.
unfoldable pub query_key : (configured : Option Text) → Endpoint → KeyOptions → QueryKey
unfolding create_query_key
query_key configured e o = create_query_key configured e.id o

-- `{ ...options, ...queryKey[0] }` at one option.
abbrev pub from_key : QueryKey → (name : String) → Value → Value
unfolding lookup text_eq
from_key key name own = elim (lookup (codes name) key) [ some v ↦ v | none ↦ own ]

-- What the `queryFn` of a query calls the SDK with.
unfoldable pub query_call : QueryKey → KeyOptions → KeyOptions
unfolding lookup text_eq
query_call key o = record o {
  body = from_key key "body" o.body;
  headers = from_key key "headers" o.headers;
  path = from_key key "path" o.path;
  query = from_key key "query" o.query;
}

abbrev pub value_of : QueryKey → Text → Value
unfolding lookup text_eq
value_of key name = elim (lookup name key) [ some v ↦ v | none ↦ undefined ]

-- TanStack's match of a key against a filter: an object matches if each entry of the filter's object
-- does; `deep` is its match of two values.
unfoldable pub matches : (deep : Value → Value → Bool) → (filter target : QueryKey) → Bool
unfolding lookup text_eq
matches deep filter target = all (λ e. deep e.1 (value_of target e.0)) filter

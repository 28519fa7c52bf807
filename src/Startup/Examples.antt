-- ===== src/Startup/Examples.antt =====
-- A browser that is offline, where a script is saved.
use integr8s_code.Base.{
  ℕ, ◌≡◌, refl, arith, true, false, Option, none, some, List, [], ◌∷◌, Text, codes, text_eq, lookup,
  if◌then◌else◌,
}
use integr8s_code.Headers.{get, lower_text}
use integr8s_code.Csrf.{Request, csrf_header}
use integr8s_code.Csrf.Laws.{render}
use integr8s_code.Errors.{ErrorResponse}
use integr8s_code.Client.Values.{undefined}
use integr8s_code.Client.Results.{Result, ok, thrown}
use integr8s_code.Client.Configuration.{Config, created}
use integr8s_code.Client.Request.{World, RequestOptions, Resolved}
use integr8s_code.Client.Request.Sending.{prepared, send}
use integr8s_code.Startup.{initialize, Browser, set_up, attempt}
use integr8s_code.Startup.Tokens.{IsSettable, try_request-initialize}

data Problem : Type 0 where
  offline : Problem
  response : ErrorResponse → Problem

abbrev world : World
world = record {
  E = Problem;
  Q = Request;
  S = ℕ;
  D = Text;
  btoa = λ t. t;
  bad_url = offline;
  make_request = λ opts body url. ok (record { method = opts.method; headers = opts.headers });
  fetch = λ q. thrown offline;
  is_ok = λ s. true;
  status = λ s. s;
  header = λ s name. none;
  body_of = λ s. [];
  read = λ kind s. ok [];
  read_text = λ s. ok [];
  parse_json = λ t. ok t;
  new_form_data = [];
  empty_object = [];
  is_nullish = λ d. false;
  json_error = λ d. offline;
  text_error = λ t. offline;
  is_falsy = λ e. false;
  empty_error = offline;
}

abbrev problem : Problem → Option ErrorResponse
problem offline = none
problem (response f) = some f

abbrev as_error : Problem → ErrorResponse
as_error offline = record { status = 0; detail = "" }
as_error (response f) = f

abbrev jar : List (Text × Text)
jar = (codes "csrf_token", codes "t0") ∷ []

abbrev browser : Browser world
browser = record {
  cookie = render jar;
  method = λ q. q.method;
  headers = λ q. q.headers;
  with_headers = λ h q. record q { headers = h };
  problem = problem;
  value = response;
  as_error = as_error;
}

browser-IsSettable : IsSettable world browser
browser-IsSettable h q = (refl, refl)

abbrev configuration : Config Problem Text
configuration = created (λ v. ok v)

abbrev call : RequestOptions Problem Text
call = record {
  settings = record configuration { throw_on_error = some true };
  body = undefined;
  path = none;
  query = none;
  security = none;
  url = codes "/api/v1/scripts";
  method = codes "POST";
}

abbrev network_error : ErrorResponse
network_error = record { status = 0; detail = "Network error. Check your connection." }

-- What the call prepares.
abbrev value_or : {E A : Type 0} → A → Result E A → A
value_or a (ok x) = x
value_or a (thrown e) = a

abbrev unprepared : Resolved Problem Text × Request
unprepared = (
  record {
    settings = configuration;
    headers = [];
    body = undefined;
    serialized_body = undefined;
    path = none;
    query = none;
    url = [];
    method = [];
  },
  record { method = []; headers = [] },
)

abbrev made : Resolved Problem Text × Request
made = value_or unprepared (prepared world (set_up world browser true configuration).config call)

try_request-initialize_example :
    (sent : Request) × (attempt world browser true configuration call
      ≡ send world (set_up world browser true configuration).interceptors made.0 (sent, none))
    × (sent.method ≡ made.1.method)
    × (get (codes "x-csrf-token") sent.headers ≡ (
        if text_eq (lower_text csrf_header) (lower_text (codes "x-csrf-token"))
        then some (codes "t0")
        else get (codes "x-csrf-token") made.1.headers))
unfolding text_eq prepared initialize lookup
try_request-initialize_example =
    try_request-initialize world browser true configuration call made.0 made.1 jar (codes "t0")
      (codes "x-csrf-token") browser-IsSettable refl (ground arith) refl (λ e. absurd (cc)) refl
      (λ e. absurd (cc))

-- ===== src/Client/Examples.antt =====
-- Runs of the client: a path, credentials, and a call over a world of texts.
use integr8s_code.Base.{
  lookup, arith, text_eq, ◌≡◌, refl, false, none, some, List, [], ◌∷◌, ◌++◌, Text, codes, ◌==◌, ℕ,
}
use integr8s_code.Client.Values.{Value, undefined, string, number, as_text}
use integr8s_code.Client.Results.{ok}
use integr8s_code.Client.Path.{default_path_serializer, placeholder}
use integr8s_code.Client.Percent.{encode_uri_component}
use integr8s_code.Client.Path.Filling.{render, fill, default_path_serializer-fill}
use integr8s_code.Client.Auth.{Auth, header, bearer, http, Credentials}
use integr8s_code.Client.Configuration.{Config, created}
use integr8s_code.Client.Request.{RequestOptions, World, Interceptors, Answer}
use integr8s_code.Client.Request.Sending.{request}
use integr8s_code.Client.Request.Total.{request_total}

abbrev path : List (Text × Value)
path = (codes "execution_id", string (codes "a/b{c}")) ∷ []

abbrev pieces : List (Text × Text)
pieces = (codes "/api/v1/executions/", codes "execution_id") ∷ []

path-run :
    default_path_serializer path (codes "/api/v1/executions/{execution_id}/result")
    ≡ some (codes "/api/v1/executions/a%2Fb%7Bc%7D/result")
unfolding default_path_serializer encode_uri_component as_text text_eq
path-run = refl

default_path_serializer-fill_example :
    default_path_serializer path (render pieces (codes "/result"))
    ≡ fill path pieces (codes "/result")
unfolding placeholder as_text text_eq lookup
default_path_serializer-fill_example =
    default_path_serializer-fill path pieces (codes "/result") (ground arith) (ground arith)
      ((refl, ground arith), tt)

abbrev scheme : Auth
scheme = record {
  place = some header;
  key = none;
  name = some (codes "Authorization");
  scheme = some bearer;
  type = http;
}

abbrev credentials : Credentials
credentials = record { headers = (codes "authorization", codes "mine") ∷ []; query = none }

-- A server that answers every request with its own text, and finds no page `/missing`.
abbrev world : World
world = record {
  E = Text;
  Q = Text;
  S = ℕ × Text;
  D = Text;
  btoa = λ t. t;
  bad_url = codes "bad";
  make_request = λ opts body url. ok url;
  fetch = λ q. ok (200, q);
  is_ok = λ s. s.0 == 200;
  status = λ s. s.0;
  header = λ s name. none;
  body_of = λ s. s.1;
  read = λ kind s. ok s.1;
  read_text = λ s. ok s.1;
  parse_json = λ t. ok t;
  new_form_data = [];
  empty_object = [];
  is_nullish = λ d. false;
  json_error = λ d. d;
  text_error = λ t. t;
  is_falsy = λ e. false;
  empty_error = [];
}

abbrev interceptors : Interceptors world
interceptors = record {
  request = some (λ q opts. ok (q ++ codes "!")) ∷ none ∷ [];
  response = [];
  error = some (λ e s q. ok e) ∷ [];
}

abbrev configuration : Config Text Text
configuration = created (λ v. ok v)

abbrev call : RequestOptions Text Text
call = record {
  settings = record configuration { base_url = some (codes "https://host") };
  body = undefined;
  path = some path;
  query = some ((codes "limit", number (codes "10")) ∷ []);
  security = none;
  url = codes "/api/v1/executions/{execution_id}/result";
  method = codes "GET";
}

request_total_example :
    (answer : Answer world) × (request world interceptors configuration call ≡ ok answer)
request_total_example =
    request_total world interceptors configuration call refl ((λ e s q. (e, refl)), tt)

abbrev address : Text
address = codes "https://host/api/v1/executions/a%2Fb%7Bc%7D/result?limit=10!"

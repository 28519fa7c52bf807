-- ===== src/Client/Request/Preparing/Method.antt =====
-- The method among a call's options is handed through as it is.
use integr8s_code.Base.{◌≡◌, refl, [], ◌∷◌, Text}
use integr8s_code.Client.Merging.{merge_headers}
use integr8s_code.Client.Results.{Result, ok, thrown, or_throw, ◌>>=◌}
use integr8s_code.Client.Url.{build_url, given}
use integr8s_code.Client.Configuration.{Config, spread, default_query_serializer}
use integr8s_code.Client.Request.{RequestOptions, Resolved, World}
use integr8s_code.Client.Request.Preparing.{
  before_request, with_credentials, validated_request, serialized, url_options,
}

pub bind_through :
    {E A B C : Type 0} (r : Result E A) (f : A → Result E B) (g : B → Result E C)
    (h : A → Result E C)
    → ((a : A) → (f a >>= g) ≡ h a)
    → ((r >>= f) >>= g) ≡ (r >>= h)
bind_through (ok a) f g h k = k a
bind_through (thrown e) f g h k = refl

module _ (w : World) where
  unfoldable pub with_method : Text → Resolved w.E w.D × Text → Result w.E (Resolved w.E w.D × Text)
  with_method method p = ok (record p.0 { method = method }, p.1)

  pub before_request-method :
      (config : Config w.E w.D) (o : RequestOptions w.E w.D) (method : Text)
      → (before_request w config o >>= with_method method)
        ≡ before_request w config (record o { method = method })
  unfolding before_request url_options with_method
  before_request-method config o method =
      let c = spread config o.settings in
      let credentials = with_credentials w c o.security (record {
        headers = merge_headers (config.headers ∷ o.settings.headers ∷ []);
        query = o.query;
      }) in
      bind_through
        (validated_request w c.request_validator
          (record { body = o.body; path = o.path; query = credentials.query }))
        _ (with_method method) _
        (λ x. bind_through (serialized w c.body_serializer o.body) _ (with_method method) _ (λ sent.
          bind_through
            (or_throw w.bad_url (
              build_url (given c.query_serializer default_query_serializer)
                (url_options w o c credentials)))
            _ (with_method method) _ (λ url. refl)))

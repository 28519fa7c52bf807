-- ===== src/Client/Request/Reading.antt =====
-- How a response is read, in frontend/src/lib/api/client/client.gen.ts.
use integr8s_code.Base.{
  Bool, false, ◌||◌, Option, none, some, [], ◌∷◌, ◌==◌, if◌then◌else◌, Text, codes, text_eq,
}
use integr8s_code.Client.Results.{Result, ok, thrown, ◌>>=◌}
use integr8s_code.Client.ParseAs.{
  BodyKind, array_buffer, blob, form_data, json, stream, text, ParseAs, auto, always, get_parse_as,
}
use integr8s_code.Client.Url.{given}
use integr8s_code.Client.Configuration.{Config, ResponseStyle, data_style}
use integr8s_code.Client.Request.{World, Answer, only_data, fields}

module _ (w : World) where
  -- The kind of body: that of the settings, or the one that the response's type stands for.
  unfoldable pub resolved_kind : Option ParseAs → w.S → BodyKind
  unfolding get_parse_as
  resolved_kind none s = json
  resolved_kind (some (always kind)) s = kind
  resolved_kind (some auto) s = given (get_parse_as (w.header s (codes "Content-Type"))) json

  unfoldable pub has_no_content : w.S → Bool
  unfolding text_eq
  has_no_content s = w.status s == 204 || (elim (w.header s (codes "Content-Length")) [
    | some l ↦ text_eq l (codes "0")
    | none ↦ false
  ])

  unfoldable pub empty_data : BodyKind → w.S → Result w.E w.D
  empty_data array_buffer s = w.read array_buffer s
  empty_data blob s = w.read blob s
  empty_data text s = w.read text s
  empty_data form_data s = ok w.new_form_data
  empty_data stream s = ok (w.body_of s)
  empty_data json s = ok w.empty_object

  unfoldable pub parsed_json : Text → Result w.E w.D
  parsed_json [] = ok w.empty_object
  parsed_json (c ∷ s) = w.parse_json (c ∷ s)

  -- `responseValidator` and `responseTransformer`.
  unfoldable pub checked : Config w.E w.D → w.D → Result w.E w.D
  checked c d =
      (elim (c.response_validator) [
        | some check ↦ (elim (check d) [ some e ↦ thrown e | none ↦ ok d ])
        | none ↦ ok d
      ])
      >>= λ d. elim (c.response_transformer) [ some transform ↦ transform d | none ↦ ok d ]

  unfoldable pub full_data : Config w.E w.D → BodyKind → w.S → Result w.E w.D
  unfolding parsed_json checked
  full_data c json s = w.read_text s >>= λ t. parsed_json t >>= λ d. checked c d
  full_data c stream s = ok (w.body_of s)
  full_data c kind s = w.read kind s

  unfoldable pub styled : Option ResponseStyle → w.Q → w.S → w.D → Answer w
  styled (some data_style) q s d = only_data d
  styled _ q s d = fields d q s

  -- `if (response.ok)`
  unfoldable pub read_success : Config w.E w.D → w.Q → w.S → Result w.E (Answer w)
  unfolding empty_data full_data styled resolved_kind has_no_content
  read_success c q s =
      let kind = resolved_kind c.parse_as s in
      (if has_no_content s then empty_data kind s else full_data c kind s) >>= λ d.
      ok (styled c.response_style q s d)

  -- `throw jsonError ?? textError`
  unfoldable pub error_of : Text → Result w.E w.D → w.E
  error_of t (thrown _) = w.text_error t
  error_of t (ok d) = if w.is_nullish d then w.text_error t else w.json_error d

  unfoldable pub read_failure : w.S → Result w.E (Answer w)
  unfolding error_of
  read_failure s = w.read_text s >>= λ t. thrown (error_of t (w.parse_json t))

-- ===== src/Client/ParseAs.antt =====
-- How the body of a response is read: getParseAs of frontend/src/lib/api/client/utils.gen.ts.
use integr8s_code.Base.{
  ◌||◌, Option, none, some, List, [], ◌∷◌, if◌then◌else◌, Text, codes, is_empty, text_eq,
  starts_with, ends_with, any, until, trim,
}

-- The ways to read a body, and the setting, which may leave it to the response.
pub data BodyKind : Type 0 where
  array_buffer blob form_data json stream text : BodyKind

pub data ParseAs : Type 0 where
  auto : ParseAs
  always : BodyKind → ParseAs

abbrev pub blob_types : List Text
blob_types = codes "application/" ∷ codes "audio/" ∷ codes "image/" ∷ codes "video/" ∷ []

parse_clean : Text → Option BodyKind
unfolding text_eq ends_with
parse_clean content =
    if is_empty content
    then none
    else if starts_with content (codes "application/json") || ends_with content (codes "+json")
    then some json
    else if text_eq content (codes "multipart/form-data")
    then some form_data
    else if any (starts_with content) blob_types
    then some blob
    else if starts_with content (codes "text/")
    then some text
    else none

-- `null` and the empty text are both falsy; `none` in the result is `undefined`.
unfoldable pub get_parse_as : Option Text → Option BodyKind
unfolding parse_clean trim until
get_parse_as none = some stream
get_parse_as (some []) = some stream
get_parse_as (some (c ∷ content_type)) = parse_clean (trim (until b';' (c ∷ content_type)))

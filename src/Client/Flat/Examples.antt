-- ===== src/Client/Flat/Examples.antt =====
-- Parameters that are given as one object.
use integr8s_code.Base.{text_eq, ◌≡◌, refl, true, Bool, none, some, List, [], ◌∷◌, codes}
use integr8s_code.Client.Values.{string, object, Members, member, end}
use integr8s_code.Client.Flat.{
  Slot, body, path, Field, placed, fields, missing, entries_held, build_client_params,
  build_key_map, write_args, write_arg, entries_of_arg, write_entries, strip_empty_slots,
}

abbrev id_field : List Field
id_field =
    placed path (some (codes "id")) (some (codes "script_id"))
    ∷ placed body (some (codes "name")) none
    ∷ []

abbrev given : Members
given = member (codes "id") (string (codes "7")) (
    member (codes "$query_limit") (string (codes "10")) (
      member (codes "name") (string (codes "x")) (member (codes "lang") (string (codes "go")) end)))

abbrev allowed : List (Slot × Bool)
allowed = (body, true) ∷ []

build_client_params-run :
    build_client_params (object given ∷ []) (fields allowed id_field ∷ [])
    ≡ some (record {
      body =
          entries_held
            ((codes "name", string (codes "x")) ∷ (codes "lang", string (codes "go")) ∷ []);
      headers = missing;
      path = entries_held ((codes "script_id", string (codes "7")) ∷ []);
      query = entries_held ((codes "limit", string (codes "10")) ∷ []);
    })
unfolding build_client_params build_key_map write_args write_arg entries_of_arg write_entries
    strip_empty_slots text_eq
build_client_params-run = refl

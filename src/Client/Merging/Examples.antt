-- ===== src/Client/Merging/Examples.antt =====
-- Runs of the merging of headers.
use integr8s_code.Base.{◌≡◌, none, List, [], ◌∷◌, codes}
use integr8s_code.Headers.{get}
use integr8s_code.Client.Merging.{
  HeadersInit, record_of, absent, primitive, null, array, merge_headers,
}
use integr8s_code.Client.Merging.Values.{value_of, get-merge_headers}

abbrev sources : List HeadersInit
sources =
    record_of ((codes "Content-Type", primitive (codes "application/json")) ∷ [])
    ∷ absent
    ∷ record_of
        ((codes "content-type", null) ∷ (codes "Accept", array (codes "a" ∷ codes "b" ∷ [])) ∷ [])
    ∷ []

get-merge_headers_example :
    get (codes "accept") (merge_headers sources) ≡ value_of (codes "accept") sources none
get-merge_headers_example = get-merge_headers (codes "accept") sources

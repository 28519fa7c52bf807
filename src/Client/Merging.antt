-- ===== src/Client/Merging.antt =====
-- How the headers of the client's configuration and of a call are put together: mergeHeaders of
-- frontend/src/lib/api/client/utils.gen.ts. The order of two different names in the result, which
-- `Headers` sorts anyway, is not looked at.
pub mod Values
mod Examples
use integr8s_code.Base.{Option, none, some, List, [], ◌∷◌, map, Text}
use integr8s_code.Headers.{Headers, set, delete, append}

-- A value of an object of headers; `object` holds the JSON that `JSON.stringify` makes of it.
pub data HeaderValue : Type 0 where
  null undefined : HeaderValue
  array : List Text → HeaderValue
  object : (json : Text) → HeaderValue
  primitive : Text → HeaderValue

pub data HeadersInit : Type 0 where
  absent : HeadersInit
  headers : Headers → HeadersInit
  record_of : List (Text × HeaderValue) → HeadersInit

-- `for (const v of value) mergedHeaders.append(key, v)`
unfoldable pub append_all : Text → List Text → Headers → Headers
append_all key [] h = h
append_all key (v ∷ vs) h = append_all key vs (append key v h)

unfoldable pub merge_value : Text → HeaderValue → Headers → Headers
unfolding append_all
merge_value key null h = delete key h
merge_value key undefined h = h
merge_value key (array vs) h = append_all key vs h
merge_value key (object json) h = set key json h
merge_value key (primitive v) h = set key v h

unfoldable pub merge_entries : List (Text × HeaderValue) → Headers → Headers
unfolding merge_value
merge_entries [] h = h
merge_entries ((key, v) ∷ es) h = merge_entries es (merge_value key v h)

unfoldable pub headers_entries : Headers → List (Text × HeaderValue)
headers_entries [] = []
headers_entries ((key, v) ∷ h) = (key, primitive v) ∷ headers_entries h

unfoldable pub entries_of : HeadersInit → List (Text × HeaderValue)
unfolding headers_entries
entries_of absent = []
entries_of (headers h) = headers_entries h
entries_of (record_of es) = es

pub merge_into : Headers → List HeadersInit → Headers
unfolding merge_entries entries_of
merge_into merged [] = merged
merge_into merged (i ∷ is) = merge_into (merge_entries (entries_of i) merged) is

unfoldable pub merge_headers : List HeadersInit → Headers
unfolding merge_into
merge_headers is = merge_into [] is

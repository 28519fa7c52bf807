-- ===== src/Headers.antt =====
-- The platform's `Headers`, as far as the client uses it: each name once, in lower case, with its
-- values joined as `get` answers them.
use integr8s_code.Base.{
  true, ap, text_eq_iff, ℕ, ◌+◌, ◌≡◌, ◌&&◌, Option, none, some, List, ◌++◌, map, leb, if◌then◌else◌,
  Text, codes, text_eq, lookup, insert, remove, lookup-insert, lookup-remove,
}

unfoldable pub lower : ℕ → ℕ
lower c = if leb b'A' c && leb c b'Z' then c + 32 else c

abbrev pub lower_text : Text → Text
lower_text s = map lower s

abbrev pub Headers : Type 0
Headers = List (Text × Text)

unfoldable pub get : Text → Headers → Option Text
get name h = lookup (lower_text name) h

unfoldable pub set : Text → Text → Headers → Headers
set name v h = insert (lower_text name) v h

unfoldable pub delete : Text → Headers → Headers
delete name h = remove (lower_text name) h

pub joined : Option Text → Text → Text
joined none v = v
joined (some old) v = old ++ (codes ", " ++ v)

unfoldable pub append : Text → Text → Headers → Headers
unfolding joined
append name v h = insert (lower_text name) (joined (lookup (lower_text name) h) v) h

pub get-set :
    (a b : Text) (v : Text) (h : Headers)
    → get b (set a v h) ≡ (if text_eq (lower_text a) (lower_text b) then some v else get b h)
unfolding get set
get-set a b v h = lookup-insert (lower_text a) (lower_text b) v h

pub get-delete :
    (a b : Text) (h : Headers)
    → get b (delete a h) ≡ (if text_eq (lower_text a) (lower_text b) then none else get b h)
unfolding get delete
get-delete a b h = lookup-remove (lower_text a) (lower_text b) h

pub get-append :
    (a b : Text) (v : Text) (h : Headers)
    → get b (append a v h)
      ≡ (if text_eq (lower_text a) (lower_text b) then some (joined (get a h) v) else get b h)
unfolding get append
get-append a b v h =
    lookup-insert (lower_text a) (lower_text b) (joined (lookup (lower_text a) h) v) h

pub get-same :
    (a b : Text) (h : Headers) → text_eq (lower_text a) (lower_text b) ≡ true → get a h ≡ get b h
unfolding get
get-same a b h e = ap (λ k. lookup k h) ((text_eq_iff (lower_text a) (lower_text b)).0 e)

-- ===== src/Client/Path/Filling.antt =====
-- A path is filled in at all its placeholders at once.
use integr8s_code.Base.{
  ◌≡◌, refl, sym, ap, ◌∙◌, inl, inr, arith, Bool, true, false, not, ◌||◌, Option, Option-cases,
  none, some, List, [], ◌∷◌, ◌++◌, Text, codes, is_empty, All, All-append, Lacks, append_assoc,
  append-nil, strip_prefix, strip_prefix-append, ◌>>=◌,
}
use integr8s_code.Client.Values.{
  Value, undefined, null, boolean, date, search_params, array, object, is_nullish, is_object,
  as_text,
}
use integr8s_code.Client.Percent.{is_unreserved, encode_uri_component}
use integr8s_code.Client.Percent.Laws.{IsUnits, encode_uri_component-IsEncoded, encoded-Lacks}
use integr8s_code.Client.Parameters.{simple}
use integr8s_code.Client.Path.{
  matches_from, path_params, expand, find, replace_first, placeholder, path_param, primitive_param,
  value_in, braced, replace_match, replace_matches, default_path_serializer,
}

-- A path as literal pieces, each before a placeholder's name, and the piece at the end.
abbrev pub render : List (Text × Text) → (tail : Text) → Text
render [] tail = tail
render ((piece, name) ∷ ps) tail = piece ++ (braced name ++ render ps tail)

abbrev pub names : List (Text × Text) → List Text
names [] = []
names ((piece, name) ∷ ps) = name ∷ names ps

abbrev pub HasNoBraces : Text → Type 0
HasNoBraces s = Lacks b'{' s × Lacks b'}' s

-- The name of a parameter in the plain style.
abbrev pub IsName : Text → Type 0
IsName name =
    HasNoBraces name
    × (is_empty name ≡ false)
    × (placeholder name ≡ record { explode = false; style = simple; name = name })

abbrev pub IsPiece : Text × Text → Type 0
IsPiece (piece, name) = HasNoBraces piece × IsName name

matches-piece :
    (piece rest : Text)
    → Lacks b'{' piece
    → matches_from none (piece ++ rest) ≡ matches_from none rest
unfolding matches_from
matches-piece [] rest h = refl
matches-piece (c ∷ piece) rest h = ground (arith, h.0, matches-piece piece rest h.1)

matches-name :
    (seen name rest : Text)
    → HasNoBraces name
    → is_empty (seen ++ name) ≡ false
    → matches_from (some seen) (name ++ b'}' ∷ rest) ≡ (seen ++ name) ∷ matches_from none rest
unfolding matches_from
matches-name seen [] rest h e = ground (arith, append-nil seen, e)
matches-name seen (c ∷ name) rest h e = ground (
  arith,
  h.0.0,
  h.1.0,
  append_assoc seen (c ∷ []) name,
  matches-name (seen ++ c ∷ []) name rest (h.0.1, h.1.1),
)

names-piece :
    (piece name rest : Text)
    → IsPiece (piece, name)
    → path_params (piece ++ (braced name ++ rest)) ≡ name ∷ path_params rest
unfolding path_params matches_from
names-piece piece name rest h =
    matches-piece piece (braced name ++ rest) h.0.0
    ∙ rw (append_assoc name (codes "}") rest) (matches-name [] name rest h.1.0 h.1.1)

path_params-render :
    (ps : List (Text × Text)) (tail : Text)
    → All IsPiece ps
    → HasNoBraces tail
    → path_params (render ps tail) ≡ names ps
unfolding path_params matches_from
path_params-render [] tail h k = ap path_params (sym (append-nil tail)) ∙ matches-piece tail [] k.0
path_params-render ((piece, name) ∷ ps) tail h k =
    names-piece piece name (render ps tail) h.0
    ∙ ap (λ ns. name ∷ ns) (path_params-render ps tail h.1 k)

expand-plain : (before found behind t : Text) → Lacks b'$' t → expand before found behind t ≡ t
unfolding expand
expand-plain before found behind [] h = refl
expand-plain before found behind (c ∷ []) h = refl
expand-plain before found behind (c ∷ d ∷ t) h =
    ground (arith, h.0, expand-plain before found behind (d ∷ t) h.1)

find-braced :
    (done inner rest : Text)
    → Lacks b'{' done
    → find (done ++ (braced inner ++ rest)) (braced inner) ≡ some (done, rest)
unfolding find strip_prefix
find-braced [] inner rest h = rw (find, strip_prefix-append (inner ++ codes "}") rest) refl
find-braced (c ∷ done) inner rest h = ground (arith, h.0, find-braced done inner rest h.1)

replace_first-braced :
    (done inner rest t : Text)
    → Lacks b'{' done
    → Lacks b'$' t
    → replace_first (done ++ (braced inner ++ rest)) (braced inner) t ≡ done ++ (t ++ rest)
unfolding replace_first
replace_first-braced done inner rest t h k =
    rw (replace_first, find-braced done inner rest h, expand-plain done (braced inner) rest t k)
      refl

-- A value that is a text by itself.
abbrev pub is_primitive : Value → Bool
is_primitive v = not (is_nullish v || is_object v)

path_param-primitive :
    (name : Text) (v : Value)
    → is_primitive v ≡ true
    → path_param (record { explode = false; style = simple; name = name }) v
      ≡ encode_uri_component (as_text v)
unfolding path_param primitive_param
path_param-primitive name undefined h = absurd (cc)
path_param-primitive name null h = absurd (cc)
path_param-primitive name (date _ _) h = absurd (cc)
path_param-primitive name (search_params _ _) h = absurd (cc)
path_param-primitive name (array _) h = absurd (cc)
path_param-primitive name (object _) h = absurd (cc)
path_param-primitive name (boolean _) h = refl
path_param-primitive name _ h = refl

-- The path with the encoded value of each placeholder, in its place.
abbrev pub fill : List (Text × Value) → List (Text × Text) → (tail : Text) → Option Text
fill path [] tail = some tail
fill path ((piece, name) ∷ ps) tail = do
  t ← encode_uri_component (as_text (value_in path name))
  rest ← fill path ps tail
  some (piece ++ (t ++ rest))

-- The value given for a placeholder.
abbrev pub IsGiven : List (Text × Value) → Text × Text → Type 0
IsGiven path (piece, name) =
    (is_primitive (value_in path name) ≡ true) × IsUnits (as_text (value_in path name))

primitive-nullish : (v : Value) → is_primitive v ≡ true → is_nullish v ≡ false
primitive-nullish v h = ground (arith, h)

encoded-dollar : (s t : Text) → IsUnits s → encode_uri_component s ≡ some t → Lacks b'$' t
unfolding is_unreserved
encoded-dollar s t u e = encoded-Lacks b'$' t refl (encode_uri_component-IsEncoded s t u e)

encoded-brace : (s t : Text) → IsUnits s → encode_uri_component s ≡ some t → Lacks b'{' t
unfolding is_unreserved
encoded-brace s t u e = encoded-Lacks b'{' t refl (encode_uri_component-IsEncoded s t u e)

replace_match-braced :
    (path : List (Text × Value)) (done name rest : Text)
    → Lacks b'{' done
    → IsName name
    → is_primitive (value_in path name) ≡ true
    → IsUnits (as_text (value_in path name))
    → replace_match path name (done ++ (braced name ++ rest))
      ≡ (encode_uri_component (as_text (value_in path name)) >>= λ t. some (done ++ (t ++ rest)))
unfolding replace_match
replace_match-braced path done name rest h n p u =
    rw
      (
        replace_match,
        n.2,
        primitive-nullish (value_in path name) p,
        path_param-primitive name (value_in path name) p,
      )
      (elim (Option-cases (encode_uri_component (as_text (value_in path name)))) [
        | inl e ↦ rw e refl
        | inr (t, e) ↦ rw (e, replace_first-braced done name rest t h (encoded-dollar _ t u e)) refl
      ])

append_thrice :
    (done piece t rest : Text) → ((done ++ piece) ++ t) ++ rest ≡ done ++ (piece ++ (t ++ rest))
append_thrice done piece t rest =
    append_assoc (done ++ piece) t rest ∙ append_assoc done piece (t ++ rest)

>>=-append :
    (o : Option Text) (done piece t : Text)
    → (o >>= λ r. some (((done ++ piece) ++ t) ++ r))
      ≡ ((o >>= λ r. some (piece ++ (t ++ r))) >>= λ r. some (done ++ r))
>>=-append none done piece t = refl
>>=-append (some r) done piece t = ap some (append_thrice done piece t r)

replace_matches-render :
    (path : List (Text × Value)) (done : Text) (ps : List (Text × Text)) (tail : Text)
    → Lacks b'{' done
    → All IsPiece ps
    → All (IsGiven path) ps
    → replace_matches path (names ps) (done ++ render ps tail)
      ≡ (fill path ps tail >>= λ r. some (done ++ r))
unfolding replace_matches
replace_matches-render path done [] tail h k g = refl
replace_matches-render path done ((piece, name) ∷ ps) tail h k g =
    rw
      (
        sym (append_assoc done piece (braced name ++ render ps tail)),
        replace_match-braced path (done ++ piece) name (render ps tail)
            (All-append _ done piece h k.0.0.0) k.0.1 g.0.0 g.0.1,
      )
      (elim (Option-cases (encode_uri_component (as_text (value_in path name)))) [
        | inl e ↦ rw e refl
        | inr (t, e) ↦ rw e (
            ap (replace_matches path (names ps))
              (sym (append_assoc (done ++ piece) t (render ps tail)))
            ∙ replace_matches-render path ((done ++ piece) ++ t) ps tail
                (All-append _ (done ++ piece) t (All-append _ done piece h k.0.0.0)
                  (encoded-brace _ t g.0.1 e))
                k.1 g.1
            ∙ >>=-append (fill path ps tail) done piece t)
      ])

>>=-some : (o : Option Text) → (o >>= λ r. some r) ≡ o
>>=-some none = refl
>>=-some (some r) = refl

-- A path whose placeholders are plain names with values that are texts, numbers and the like becomes
-- the path with each value encoded in its place, and fails exactly if a value cannot be encoded:
-- although the code replaces one placeholder after the other in the whole text, no value that was put
-- in is taken for a placeholder, or for a pattern of `replace`.
pub default_path_serializer-fill :
    (path : List (Text × Value)) (ps : List (Text × Text)) (tail : Text)
    → All IsPiece ps
    → HasNoBraces tail
    → All (IsGiven path) ps
    → default_path_serializer path (render ps tail) ≡ fill path ps tail
unfolding default_path_serializer
default_path_serializer-fill path ps tail h k g =
    ap (λ ns. replace_matches path ns (render ps tail)) (path_params-render ps tail h k)
    ∙ replace_matches-render path [] ps tail tt h g
    ∙ >>=-some (fill path ps tail)

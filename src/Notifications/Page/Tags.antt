-- ===== src/Notifications/Page/Tags.antt =====
-- What the page reads as tags.
use integr8s_code.Base.{
  ℕ, ◌≡◌, refl, ap, ap₂, sym, ◌∙◌, inl, inr, false, Bool-cases, List, [], ◌∷◌, ◌++◌, append-nil,
  map, is_empty, IsSpaceless, trim_id, Text, codes, trim, join, All, arith,
}
use integr8s_code.Base.{filter}
use integr8s_code.Notifications.Page.{
  is_separator, begins_with_separator, onto_first, split_pieces, non_empty, parse_tags,
}

abbrev pub IsPlain : Text → Type 0
IsPlain = All (λ c. is_separator c ≡ false)

-- A text with something in it, and neither white space nor commas.
abbrev pub IsTag : Text → Type 0
IsTag tag = (is_empty tag ≡ false) × IsPlain tag

abbrev onto : Text → List Text → List Text
onto [] pieces = pieces
onto (c ∷ t) pieces = onto_first c (onto t pieces)

onto-cons : (t piece : Text) (pieces : List Text) → onto t (piece ∷ pieces) ≡ (t ++ piece) ∷ pieces
onto-cons [] piece pieces = refl
onto-cons (c ∷ t) piece pieces = rw (onto-cons t piece pieces) refl

split_pieces-append : (t s : Text) → IsPlain t → split_pieces (t ++ s) ≡ onto t (split_pieces s)
unfolding split_pieces
split_pieces-append [] s h = refl
split_pieces-append (c ∷ t) s h = rw (h.0, split_pieces-append t s h.1) refl

split_plain : (t : Text) → IsPlain t → split_pieces t ≡ t ∷ []
unfolding split_pieces
split_plain t h =
    ap split_pieces (sym (append-nil t))
    ∙ split_pieces-append t [] h
    ∙ onto-cons t [] []
    ∙ ap (λ s. s ∷ []) (append-nil t)

spaceless : (t : Text) → IsPlain t → IsSpaceless t
unfolding is_separator
spaceless [] h = tt
spaceless (c ∷ t) h = (ground (arith, h.0), spaceless t h.1)

map-trim : (ts : List Text) → All IsPlain ts → map trim ts ≡ ts
map-trim [] h = refl
map-trim (t ∷ ts) h = ap₂ (λ s ss. s ∷ ss) (trim_id t (spaceless t h.0)) (map-trim ts h.1)

filter_tags : (ts : List Text) → All IsTag ts → filter non_empty ts ≡ ts
unfolding filter
filter_tags [] h = refl
filter_tags (t ∷ ts) h = rw (h.0.0, filter_tags ts h.1) refl

begins_plain : (t s : Text) → IsTag t → begins_with_separator (t ++ s) ≡ false
unfolding begins_with_separator
begins_plain [] s h = absurd (cc)
begins_plain (c ∷ t) s h = h.1.0

join_begins :
    (t : Text) (ts : List Text)
    → IsTag t
    → begins_with_separator (join (codes ", ") (t ∷ ts)) ≡ false
join_begins t [] h = ap begins_with_separator (sym (append-nil t)) ∙ begins_plain t [] h
join_begins t (u ∷ us) h = begins_plain t (codes ", " ++ join (codes ", ") (u ∷ us)) h

split_separated :
    (s : Text)
    → begins_with_separator s ≡ false
    → split_pieces (codes ", " ++ s) ≡ [] ∷ split_pieces s
unfolding split_pieces is_separator
split_separated s h = rw (split_pieces, h) refl

split_pieces-join :
    (t : Text) (ts : List Text)
    → All IsTag (t ∷ ts)
    → split_pieces (join (codes ", ") (t ∷ ts)) ≡ t ∷ ts
split_pieces-join t [] h = split_plain t h.0.1
split_pieces-join t (u ∷ us) h =
    split_pieces-append t (codes ", " ++ join (codes ", ") (u ∷ us)) h.0.1
    ∙ ap (onto t) (split_separated (join (codes ", ") (u ∷ us)) (join_begins u us h.1.0))
    ∙ onto-cons t [] (split_pieces (join (codes ", ") (u ∷ us)))
    ∙ ap₂ (λ s ss. s ∷ ss) (append-nil t) (split_pieces-join u us h.1)

IsPlain-tags : (ts : List Text) → All IsTag ts → All IsPlain ts
IsPlain-tags [] h = tt
IsPlain-tags (t ∷ ts) h = (h.0.1, IsPlain-tags ts h.1)

-- Tags that are written one behind the other, with a comma and a space between them, are read as they
-- are.
pub parse_tags-join :
    (tags : List Text) → All IsTag tags → parse_tags (join (codes ", ") tags) ≡ tags
unfolding parse_tags split_pieces filter trim
parse_tags-join [] h = refl
parse_tags-join (t ∷ ts) h =
    ap (λ pieces. filter non_empty (map trim pieces)) (split_pieces-join t ts h)
    ∙ ap (filter non_empty) (map-trim (t ∷ ts) (IsPlain-tags (t ∷ ts) h))
    ∙ filter_tags (t ∷ ts) h

onto_first-IsPlain :
    (c : ℕ) (pieces : List Text)
    → is_separator c ≡ false
    → All IsPlain pieces
    → All IsPlain (onto_first c pieces)
onto_first-IsPlain c [] e h = ((e, tt), tt)
onto_first-IsPlain c (piece ∷ pieces) e h = ((e, h.0), h.1)

split_pieces-IsPlain : (s : Text) → All IsPlain (split_pieces s)
unfolding split_pieces
split_pieces-IsPlain [] = (tt, tt)
split_pieces-IsPlain (c ∷ s) = elim (Bool-cases (is_separator c)) [
  | inl e ↦ elim (Bool-cases (begins_with_separator s)) [
    | inl f ↦ rw (e, f) (split_pieces-IsPlain s)
    | inr f ↦ rw (e, f) (tt, split_pieces-IsPlain s)
  ]
  | inr e ↦ rw e (onto_first-IsPlain c (split_pieces s) e (split_pieces-IsPlain s))
]

tags_kept : (ts : List Text) → All IsPlain ts → All IsTag (filter non_empty ts)
unfolding filter
tags_kept [] h = tt
tags_kept ([] ∷ ts) h = tags_kept ts h.1
tags_kept ((c ∷ t) ∷ ts) h = ((refl, h.0), tags_kept ts h.1)

-- Whatever is typed, what is read as tags are tags: none is empty, and none has white space or a comma.
pub parse_tags-IsTag : (input : Text) → All IsTag (parse_tags input)
unfolding parse_tags
parse_tags-IsTag input =
    rw (parse_tags, map-trim (split_pieces input) (split_pieces-IsPlain input))
      (tags_kept (split_pieces input) (split_pieces-IsPlain input))

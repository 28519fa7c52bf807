-- ===== src/Sdk/Templates.antt =====
-- URLs with placeholders, taken apart.
use integr8s_code.Base.{
  ℕ, ◌≡◌, refl, Bool, true, false, not, ◌&&◌, both, ◌||◌, ◌==◌, List, [], ◌∷◌, ◌++◌, all, is_empty,
  Text, text_eq, text_eq→eq, All, Lacks, arith,
}
use integr8s_code.Client.Parameters.{
  Style, form, space_delimited, pipe_delimited, deep_object, label, matrix, simple,
}
use integr8s_code.Client.Path.{Placeholder, placeholder}
use integr8s_code.Client.Path.Filling.{render, HasNoBraces, IsName, IsPiece}

-- A URL as literal pieces, each before a placeholder's name, and the piece at the end.
mutual
  literal : (piece : Text) → Text → List (Text × Text) × Text
  literal piece [] = ([], piece)
  literal piece (c ∷ s) = elim (c == b'{') [
    | true ↦ named piece [] s
    | false ↦ literal (piece ++ c ∷ []) s
  ]

  named : (piece name : Text) → Text → List (Text × Text) × Text
  named piece name [] = ([], piece ++ name)
  named piece name (c ∷ s) = elim (c == b'}') [
    | true ↦ let rest = literal [] s in ((piece, name) ∷ rest.0, rest.1)
    | false ↦ named piece (name ++ c ∷ []) s
  ]

unfoldable pub template : Text → List (Text × Text) × Text
unfolding literal named
template url = literal [] url

abbrev is_simple : Style → Bool
is_simple simple = true
is_simple _ = false

no_braces : Text → Bool
no_braces s = all (λ c. not (c == b'{')) s && all (λ c. not (c == b'}')) s

-- What ends a segment of a path, or the path.
abbrev pub ends_segment : ℕ → Bool
ends_segment c = c == b'/' || c == b'?' || c == b'#'

plain_name : Text → Bool
unfolding no_braces text_eq placeholder
plain_name name =
    let p = placeholder name in
    (no_braces name && not (is_empty name))
    && (((not p.explode && is_simple p.style) && text_eq p.name name)
        && all (λ c. not (ends_segment c)) name)

unfoldable pub well_formed : Text → Bool
unfolding plain_name no_braces template text_eq
well_formed url =
    let t = template url in
    all (λ p. no_braces p.0 && plain_name p.1) t.0
    && (no_braces t.1 && text_eq (render t.0 t.1) url)

lacking : (c : ℕ) (s : Text) → all (λ d. not (d == c)) s ≡ true → Lacks c s
lacking c [] h = tt
lacking c (d ∷ s) h =
    let k = both (not (d == c)) (all (λ e. not (e == c)) s) h in
    (ground (arith, k.0), lacking c s k.1)

no_braces-HasNoBraces : (s : Text) → no_braces s ≡ true → HasNoBraces s
unfolding no_braces
no_braces-HasNoBraces s h =
    let k = both (all (λ c. not (c == b'{')) s) (all (λ c. not (c == b'}')) s) h in
    (lacking b'{' s k.0, lacking b'}' s k.1)

is_simple-simple : (st : Style) → is_simple st ≡ true → st ≡ simple
is_simple-simple simple h = refl
is_simple-simple form h = absurd (cc)
is_simple-simple space_delimited h = absurd (cc)
is_simple-simple pipe_delimited h = absurd (cc)
is_simple-simple deep_object h = absurd (cc)
is_simple-simple label h = absurd (cc)
is_simple-simple matrix h = absurd (cc)

is_false : (b : Bool) → not b ≡ true → b ≡ false
is_false b h = ground arith

same_placeholder :
    (p : Placeholder) (name : Text)
    → p.explode ≡ false
    → p.style ≡ simple
    → p.name ≡ name
    → p ≡ record { explode = false; style = simple; name = name }
same_placeholder p name e f g = λ i. record { explode = e i; style = f i; name = g i }

plain_name-IsName :
    (name : Text)
    → plain_name name ≡ true
    → IsName name × (all (λ c. not (ends_segment c)) name ≡ true)
unfolding plain_name
plain_name-IsName name h =
    let p = placeholder name in
    let k =
      both (no_braces name && not (is_empty name))
        (((not p.explode && is_simple p.style) && text_eq p.name name)
          && all (λ c. not (ends_segment c)) name)
        h in
    let l = both (no_braces name) (not (is_empty name)) k.0 in
    let m =
      both ((not p.explode && is_simple p.style) && text_eq p.name name)
        (all (λ c. not (ends_segment c)) name) k.1 in
    let n = both (not p.explode && is_simple p.style) (text_eq p.name name) m.0 in
    let o = both (not p.explode) (is_simple p.style) n.0 in
    (
      (
        no_braces-HasNoBraces name l.0,
        is_false (is_empty name) l.1,
        same_placeholder p name (is_false p.explode o.0) (is_simple-simple p.style o.1)
            (text_eq→eq p.name name n.1),
      ),
      m.1,
    )

-- A piece whose name has no separator either.
abbrev pub IsPlain : Text × Text → Type 0
IsPlain (piece, name) = IsPiece (piece, name) × (all (λ c. not (ends_segment c)) name ≡ true)

pieces_IsPlain :
    (ps : List (Text × Text))
    → all (λ p. no_braces p.0 && plain_name p.1) ps ≡ true
    → All IsPlain ps
pieces_IsPlain [] h = tt
pieces_IsPlain ((piece, name) ∷ ps) h =
    let k =
      both (no_braces piece && plain_name name) (all (λ p. no_braces p.0 && plain_name p.1) ps) h in
    let l = both (no_braces piece) (plain_name name) k.0 in
    let n = plain_name-IsName name l.1 in
    (((no_braces-HasNoBraces piece l.0, n.0), n.1), pieces_IsPlain ps k.1)

-- A URL that passes the test is what its template renders.
pub well_formed-template :
    (url : Text)
    → well_formed url ≡ true
    → let t = template url in All IsPlain t.0 × HasNoBraces t.1 × (render t.0 t.1 ≡ url)
unfolding well_formed
well_formed-template url h =
    let t = template url in
    let k =
      both (all (λ p. no_braces p.0 && plain_name p.1) t.0)
        (no_braces t.1 && text_eq (render t.0 t.1) url) h in
    let l = both (no_braces t.1) (text_eq (render t.0 t.1) url) k.1 in
    (pieces_IsPlain t.0 k.0, no_braces-HasNoBraces t.1 l.0, text_eq→eq (render t.0 t.1) url l.1)

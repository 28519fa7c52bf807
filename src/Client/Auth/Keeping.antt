-- ===== src/Client/Auth/Keeping.antt =====
-- Headers that a request has keep their values.
use integr8s_code.Base.{
  all, not, is_empty, ◌≡◌, refl, sym, ◌∙◌, inl, inr, Bool, true, false, false≢true, Bool-cases,
  Option, Option-cases, none, some, List, [], ◌∷◌, ◌++◌, Text, codes, text_eq, arith,
}
use integr8s_code.Headers.{lower_text, get, get-same, get-set, get-append}
use integr8s_code.Client.Auth.{
  Place, header, query, cookie, Auth, Callback, Credentials, get_auth_token, exists_named,
  check_for_existence, name_or, in_place, set_auth_param, set_auth_params,
}

-- The scheme names its header, parameter or cookie.
abbrev pub is_named : Auth → Bool
is_named auth = elim (auth.name) [ some n ↦ not (is_empty n) | none ↦ false ]

-- The header `name` has the value `v`.
abbrev pub Has : (name v : Text) → Credentials → Type 0
Has name v c = get name c.headers ≡ some v

exists_of_get :
    (c : Credentials) (name v : Text)
    → is_empty name ≡ false
    → get name c.headers ≡ some v
    → exists_named c name ≡ true
unfolding exists_named
exists_of_get c [] v h e = absurd (cc)
exists_of_get c (x ∷ name) v h e = rw e refl

-- Writing a credential keeps a header of another name.
in_place-Has :
    (place : Option Place) (other t name v : Text) (c : Credentials)
    → text_eq (lower_text other) (lower_text name) ≡ false
    → text_eq (lower_text (codes "Cookie")) (lower_text name) ≡ false
    → Has name v c
    → Has name v (in_place place other t c)
unfolding in_place
in_place-Has (some query) other t name v c h k e = e
in_place-Has (some cookie) other t name v c h k e =
    get-append (codes "Cookie") name (other ++ b'=' ∷ t) c.headers ∙ rw k e
in_place-Has (some header) other t name v c h k e = get-set other name t c.headers ∙ rw h e
in_place-Has none other t name v c h k e = get-set other name t c.headers ∙ rw h e

differs_of_missing :
    (c : Credentials) (other name v : Text)
    → is_empty other ≡ false
    → exists_named c other ≡ false
    → Has name v c
    → text_eq (lower_text other) (lower_text name) ≡ false
differs_of_missing c other name v h k e =
    elim (Bool-cases (text_eq (lower_text other) (lower_text name))) [
      | inr d ↦ d
      | inl d ↦
          absurd
            (false≢true (sym k ∙ exists_of_get c other v h (get-same other name c.headers d ∙ e)))
    ]

missing_of_named :
    (c : Credentials) (o : Option Text)
    → (elim o [ some n ↦ not (is_empty n) | none ↦ false ]) ≡ true
    → check_for_existence c o ≡ false
    → (is_empty (name_or o) ≡ false) × (exists_named c (name_or o) ≡ false)
unfolding check_for_existence
missing_of_named c none h e = absurd (cc)
missing_of_named c (some n) h e = (ground (arith, h), e)

module _ (btoa : Text → Text) (callback : Callback) (name v : Text) where
  set_auth_param-Has :
      (auth : Auth) (c : Credentials)
      → is_named auth ≡ true
      → text_eq (lower_text (codes "Cookie")) (lower_text name) ≡ false
      → Has name v c
      → Has name v (set_auth_param btoa callback auth c)
  unfolding set_auth_param
  set_auth_param-Has auth c n k h = elim (Bool-cases (check_for_existence c auth.name)) [
    | inl e ↦ rw (set_auth_param, e) h
    | inr e ↦ elim (Option-cases (get_auth_token btoa auth callback)) [
      | inl f ↦ rw (set_auth_param, e, f) h
      | inr (t, f) ↦
          let missing = missing_of_named c auth.name n e in
          rw (set_auth_param, e, f)
            (in_place-Has auth.place (name_or auth.name) t name v c
              (differs_of_missing c (name_or auth.name) name v missing.0 missing.1 h) k h)
    ]
  ]

  -- Credentials never replace a header that the request has, as long as every scheme names the header,
  -- parameter or cookie that it uses; the header Cookie, which cookies are added to, is left aside.
  pub set_auth_params-Has :
      (security : List Auth) (c : Credentials)
      → all is_named security ≡ true
      → text_eq (lower_text (codes "Cookie")) (lower_text name) ≡ false
      → Has name v c
      → Has name v (set_auth_params btoa callback security c)
  unfolding set_auth_params
  set_auth_params-Has [] c n k h = h
  set_auth_params-Has (auth ∷ security) c n k h =
      set_auth_params-Has security (set_auth_param btoa callback auth c) (ground (arith, n)) k
        (set_auth_param-Has auth c (ground (arith, n)) k h)

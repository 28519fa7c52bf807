-- ===== src/Editor/Runtime/Offered.antt =====
-- The runtime picked is one that the API offers.
use integr8s_code.Base.{
  ◌≡◌, ◌↔◌, refl, inl, inr, Bool, true, Bool-cases, Option-cases, none, some, List, [], ◌∷◌, Text,
  text_eq_refl, all, lookup, arith, is_empty, not, subst,
}
use integr8s_code.Editor.Runtime.{Runtime, LanguageInfo, newest, includes_version, pick_runtime}

-- The language is offered, in the version.
abbrev pub IsOffered : List (Text × LanguageInfo) → Runtime → Type 0
IsOffered offered r =
    (info : LanguageInfo) × (lookup r.lang offered ≡ some info)
    × (includes_version r.lang_version info.versions ≡ true)

abbrev pub has_version : Text × LanguageInfo → Bool
has_version (lang, info) = not (is_empty info.versions)

newest-includes :
    (versions : List Text)
    → not (is_empty versions) ≡ true
    → includes_version (newest versions) versions ≡ true
newest-includes [] h = absurd (cc)
newest-includes (v ∷ versions) h = rw (text_eq_refl v) refl

lookup-has_version :
    (lang : Text) (offered : List (Text × LanguageInfo)) (info : LanguageInfo)
    → all has_version offered ≡ true
    → lookup lang offered ≡ some info
    → not (is_empty info.versions) ≡ true
unfolding lookup
lookup-has_version lang [] info h e = absurd (cc)
lookup-has_version lang ((l, i) ∷ offered) info h e =
    ground (arith, lookup-has_version lang offered info)

-- The first language is found under its own name.
first-IsOffered :
    (lang : Text) (info : LanguageInfo) (offered : List (Text × LanguageInfo))
    → all has_version ((lang, info) ∷ offered) ≡ true
    → IsOffered
        ((lang, info) ∷ offered)
        (record { lang = lang; lang_version = newest info.versions })
unfolding lookup
first-IsOffered lang info offered h =
    (info, rw (text_eq_refl lang) refl, newest-includes info.versions (ground (arith, h)))

chosen-IsOffered :
    (r : Runtime) (offered : List (Text × LanguageInfo)) (info : LanguageInfo)
    → all has_version offered ≡ true
    → lookup r.lang offered ≡ some info
    → IsOffered offered (pick_runtime r offered)
unfolding pick_runtime
chosen-IsOffered r offered info h e =
    rw e (elim (Bool-cases (includes_version r.lang_version info.versions)) [
      | inl k ↦ (info, e, rw k k)
      | inr k ↦ (
        info,
        e,
        rw k (newest-includes info.versions (lookup-has_version r.lang offered info h e)),
      )
    ])

pick_runtime_unknown :
    (r : Runtime) (lang : Text) (info : LanguageInfo) (offered : List (Text × LanguageInfo))
    → lookup r.lang ((lang, info) ∷ offered) ≡ none
    → Path Runtime
        (record { lang = lang; lang_version = newest info.versions })
        (pick_runtime r ((lang, info) ∷ offered))
unfolding pick_runtime
pick_runtime_unknown r lang info offered e = rw e refl

unknown-IsOffered :
    (r : Runtime) (first : Text × LanguageInfo) (offered : List (Text × LanguageInfo))
    → all has_version (first ∷ offered) ≡ true
    → lookup r.lang (first ∷ offered) ≡ none
    → IsOffered (first ∷ offered) (pick_runtime r (first ∷ offered))
unknown-IsOffered r (lang, info) offered h e =
    subst (IsOffered ((lang, info) ∷ offered)) (pick_runtime_unknown r lang info offered e)
      (first-IsOffered lang info offered h)

picked-IsOffered :
    (r : Runtime) (first : Text × LanguageInfo) (offered : List (Text × LanguageInfo))
    → all has_version (first ∷ offered) ≡ true
    → IsOffered (first ∷ offered) (pick_runtime r (first ∷ offered))
picked-IsOffered r first offered h = elim (Option-cases (lookup r.lang (first ∷ offered))) [
  | inl e ↦ unknown-IsOffered r first offered h e
  | inr (info, e) ↦ chosen-IsOffered r (first ∷ offered) info h e
]

kept :
    (r : Runtime) (offered : List (Text × LanguageInfo))
    → IsOffered offered r
    → pick_runtime r offered ≡ r
unfolding pick_runtime
kept r offered (info, e, k) = rw (e, k) refl

-- If the API offers a language, and every language in at least one version, the runtime picked is one
-- of those offered; and it is the draft's own exactly if that is one.
pub pick_runtime-IsOffered :
    (r : Runtime) (first : Text × LanguageInfo) (offered : List (Text × LanguageInfo))
    → all has_version (first ∷ offered) ≡ true
    → IsOffered (first ∷ offered) (pick_runtime r (first ∷ offered))
      × ((pick_runtime r (first ∷ offered) ≡ r) ↔ IsOffered (first ∷ offered) r)
pick_runtime-IsOffered r first offered h = (
  picked-IsOffered r first offered h,
  (
    λ e. subst (IsOffered (first ∷ offered)) e (picked-IsOffered r first offered h),
    kept r (first ∷ offered),
  ),
)

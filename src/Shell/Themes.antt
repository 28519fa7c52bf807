-- ===== src/Shell/Themes.antt =====
-- Toggling the theme, with the answers of the API.
use integr8s_code.Base.{
  ◌≤◌, ℕ, zero, suc, ◌≡◌, ◌⊎◌, inl, inr, refl, ap, sym, ◌∙◌, Bool, true, false, Bool-cases, not,
  some, List, [], ◌∷◌, ◌++◌, false≢true, arith,
}
use integr8s_code.Shell.{
  Theme, light, dark, system, Shell, next_theme, toggle_theme, theme_saved, store_settings, is_news,
}

next_theme-next_theme : (t : Theme) → next_theme (next_theme (next_theme t)) ≡ t
unfolding next_theme
next_theme-next_theme light = refl
next_theme-next_theme dark = refl
next_theme-next_theme system = refl

abbrev pub toggles : {S : Type 0} → ℕ → Shell S → Shell S
toggles zero h = h
toggles (suc n) h = toggles n (toggle_theme h).0

toggled_mode : {S : Type 0} (h : Shell S) → (toggle_theme h).0.mode ≡ next_theme h.mode
unfolding toggle_theme
toggled_mode h = elim (Bool-cases h.signed_in) [ inl e ↦ rw e refl | inr e ↦ rw e refl ]

nearby : (t u : Theme) → (t ≡ u) ⊎ ((next_theme t ≡ u) ⊎ (next_theme (next_theme t) ≡ u))
unfolding next_theme
nearby light light = inl refl
nearby light dark = inr (inl refl)
nearby light system = inr (inr refl)
nearby dark light = inr (inr refl)
nearby dark dark = inl refl
nearby dark system = inr (inl refl)
nearby system light = inr (inl refl)
nearby system dark = inr (inr refl)
nearby system system = inl refl

-- From any theme, the user gets to each theme with two toggles at most, and a third one leads back
-- to where they began, signed in or not.
pub toggle_theme-reaches :
    {S : Type 0} (h : Shell S) (u : Theme)
    → ((n : ℕ) × (n ≤ 2) × ((toggles n h).mode ≡ u)) × ((toggles 3 h).mode ≡ h.mode)
unfolding next_theme
toggle_theme-reaches h u =
    let second : (toggles 2 h).mode ≡ next_theme (next_theme h.mode) =
      toggled_mode (toggles 1 h) ∙ ap next_theme (toggled_mode h) in
    (
      elim (nearby h.mode u) [
        | inl e ↦ (0, omega arith, e)
        | inr (inl e) ↦ (1, omega arith, toggled_mode h ∙ e)
        | inr (inr e) ↦ (2, omega arith, second ∙ e)
      ],
      toggled_mode (toggles 2 h) ∙ ap next_theme second ∙ next_theme-next_theme h.mode,
    )

-- The last of the themes, or `t` if there is none.
abbrev last_or : Theme → List Theme → Theme
last_or t [] = t
last_or t (u ∷ us) = last_or u us

last_or-append : (t u : Theme) (us : List Theme) → last_or t (us ++ u ∷ []) ≡ u
last_or-append t u [] = refl
last_or-append t u (v ∷ us) = last_or-append v u us

last_or_rest : (t u : Theme) (us : List Theme) → last_or u us ≡ t → last_or t us ≡ t
last_or_rest t u [] h = refl
last_or_rest t u (v ∷ us) h = h

module _ {S : Type 0} (theme_of : S → Theme) (same : S → S → Bool) where
  -- What a signed-in user and the API do: the user toggles the theme, or the API answers, with
  -- settings that have the theme that was sent first. The theme is the last one toggled to.
  pub data Reaches (h : Shell S) : Theme → Shell S → Type 0 where
    start : {t : Theme} → h.mode ≡ t → h.saving ≡ [] → Reaches h t h
    toggled :
        {t : Theme} {k : Shell S}
        → Reaches h t k
        → k.signed_in ≡ true
        → Reaches h (next_theme k.mode) (toggle_theme k).0
    answered :
        {t : Theme} {k : Shell S} (s : S) (us : List Theme)
        → Reaches h t k
        → k.saving ≡ theme_of s ∷ us
        → Reaches h t (theme_saved theme_of same s k)

  -- The mode is the theme of the settings that are stored.
  abbrev IsStored : Shell S → Type 0
  IsStored k = (s : S) × (k.settings ≡ some s) × (theme_of s ≡ k.mode)

  not_news :
      (s u : S) (k : Shell S)
      → k.settings ≡ some u
      → is_news theme_of same s k.settings ≡ false
      → same u s ≡ true
  unfolding is_news
  not_news s u k e n = elim (Bool-cases (same u s)) [
    | inl h ↦ h
    | inr h ↦ absurd (false≢true (sym n ∙ ap (is_news theme_of same s) e ∙ ap not h))
  ]

  -- The theme sent last is `t`; the mode is `t`, or the theme of the settings that are stored; and
  -- it is `t` when all is answered.
  record IsTracked (t : Theme) (k : Shell S) : Type 0 where
    pub last : last_or t k.saving ≡ t
    pub source : (k.mode ≡ t) ⊎ IsStored k
    pub idle : k.saving ≡ [] → k.mode ≡ t

  IsTracked-start : (t : Theme) (k : Shell S) → k.mode ≡ t → k.saving ≡ [] → IsTracked t k
  IsTracked-start t k m e = record { last = rw e refl; source = inl m; idle = λ _. m }

  IsTracked-toggled :
      (k : Shell S) → k.signed_in ≡ true → IsTracked (next_theme k.mode) (toggle_theme k).0
  unfolding toggle_theme
  IsTracked-toggled k e = rw e (record {
    last = last_or-append (next_theme k.mode) (next_theme k.mode) k.saving;
    source = inl refl;
    idle = λ _. refl;
  })

  IsTracked-answered :
      (t : Theme) (k : Shell S) (s : S) (us : List Theme)
      → ((s u : S) → same s u ≡ true → theme_of s ≡ theme_of u)
      → k.saving ≡ theme_of s ∷ us
      → IsTracked t k
      → IsTracked t (theme_saved theme_of same s k)
  unfolding theme_saved store_settings
  IsTracked-answered t k s us same_theme e i =
      let sent : last_or (theme_of s) us ≡ t = ap (last_or t) (sym e) ∙ i.last in
      let kept = last_or_rest t (theme_of s) us sent in
      let only : us ≡ [] → theme_of s ≡ t = λ h. ap (last_or (theme_of s)) (sym h) ∙ sent in
      elim (Bool-cases (is_news theme_of same s k.settings)) [
        | inl n ↦ rw (n, e) (record { last = kept; source = inr (s, refl, refl); idle = only })
        | inr n ↦
            rw (n, e)
              (record {
                last = kept;
                source = i.source;
                idle = λ h. elim i.source [
                  | inl m ↦ m
                  | inr (u, stored, m) ↦ sym m ∙ same_theme u s (not_news s u k stored n) ∙ only h
                ];
              })
      ]

  IsTracked-all :
      (h k : Shell S) (t : Theme)
      → ((s u : S) → same s u ≡ true → theme_of s ≡ theme_of u)
      → Reaches h t k
      → IsTracked t k
  IsTracked-all h k t same_theme (start m e) = IsTracked-start t k m e
  IsTracked-all h k t same_theme (toggled {k = j} run e) = IsTracked-toggled j e
  IsTracked-all h k t same_theme (answered s us run e) =
      IsTracked-answered t _ s us same_theme e (IsTracked-all h _ t same_theme run)

  -- A signed-in user toggles the theme any number of times, and the API answers each in the order
  -- sent, some answers before later toggles. When all are answered, the mode is the theme that was
  -- toggled to last, whatever the answers did to the mode in between, where settings that the query
  -- takes as the same have the same theme.
  pub mode-toggle_theme :
      (h k : Shell S) (t : Theme)
      → ((s u : S) → same s u ≡ true → theme_of s ≡ theme_of u)
      → Reaches h t k
      → k.saving ≡ []
      → k.mode ≡ t
  mode-toggle_theme h k t same_theme run e = (IsTracked-all h k t same_theme run).idle e

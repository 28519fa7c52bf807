-- ===== src/Events/Browser/Query.antt =====
-- The list's query follows the filters that were applied, and no edit of the form.
use integr8s_code.Base.{
  ℕ, ◌*◌, ◌≡◌, refl, ap, ap₂, sym, ◌∙◌, Bool, true, false, false≢true, Bool-cases, inl, inr, List,
  [], ◌∷◌, ◌++◌, Text, all, arith,
}
use integr8s_code.Events.{EventFilter}
use integr8s_code.Events.Browser.{
  ExportFormat, Page, Event, BrowseRequest, ReplayResponse, no_filters, browse_request, step, steps,
  on_replayed, view_user, apply_clicked, clear_clicked, paged, replayed, user_clicked,
  apply_filters, clear_filters,
}

-- Neither the button that applies the form nor the one that clears it.
abbrev pub is_quiet : {E : Type 0} → Event E → Bool
is_quiet apply_clicked = false
is_quiet clear_clicked = false
is_quiet _ = true

-- The last page that was chosen, with the size of pages.
abbrev pub last_page : {E : Type 0} → List (Event E) → ℕ × ℕ → ℕ × ℕ
last_page [] now = now
last_page (paged index size ∷ es) now = last_page es (index, size)
last_page (_ ∷ es) now = last_page es now

abbrev pub asked : EventFilter → ℕ × ℕ → BrowseRequest
asked f page = record { filters = f; skip = page.0 * page.1; limit = page.1 }

-- What the list's query reads of the page.
abbrev read : {E : Type 0} → Page E → EventFilter × (ℕ × ℕ)
read p = (p.applied, (p.page_index, p.page_size))

module _ {E : Type 0} (url_of : ExportFormat → EventFilter → Text) where
  on_replayed_keeps :
      (event_id : Text) (dry_run : Bool) (r : ReplayResponse E) (p : Page E)
      → read (on_replayed event_id dry_run r p).0 ≡ read p
  unfolding on_replayed
  on_replayed_keeps event_id dry_run r p = ground arith

  view_user_keeps : (user_id : Text) (p : Page E) → read (view_user user_id p) ≡ read p
  unfolding view_user
  view_user_keeps user_id p = ground arith

  read-step :
      (e : Event E) (p : Page E)
      → is_quiet e ≡ true
      → read (step url_of e p).0 ≡ (p.applied, last_page (e ∷ []) (p.page_index, p.page_size))
  unfolding step
  read-step apply_clicked p h = absurd (cc)
  read-step clear_clicked p h = absurd (cc)
  read-step (replayed id dry_run r) p h = on_replayed_keeps id dry_run r p
  read-step (user_clicked id) p h = view_user_keeps id p
  read-step _ p h = refl

  last_page-cons :
      (e : Event E) (es : List (Event E)) (now : ℕ × ℕ)
      → last_page es (last_page (e ∷ []) now) ≡ last_page (e ∷ es) now
  last_page-cons (paged index size) es now = refl
  last_page-cons _ es now = refl

  read-steps :
      (es : List (Event E)) (p : Page E)
      → all is_quiet es ≡ true
      → read (steps url_of es p).0 ≡ (p.applied, last_page es (p.page_index, p.page_size))
  unfolding steps
  read-steps [] p h = refl
  read-steps (e ∷ es) p h = elim (Bool-cases (is_quiet e)) [
    | inl q ↦
        let now = read-step e p q in
        read-steps es (step url_of e p).0 (sym (rw q refl) ∙ h)
        ∙ ap₂ (λ f page. (f, last_page es page)) (ap (λ r. r.0) now) (ap (λ r. r.1) now)
        ∙ ap (λ page. (p.applied, page)) (last_page-cons e es (p.page_index, p.page_size))
    | inr q ↦ absurd (false≢true (sym (rw q refl) ∙ h))
  ]

  steps-append :
      (es fs : List (Event E)) (p : Page E)
      → (steps url_of (es ++ fs) p).0 ≡ (steps url_of fs (steps url_of es p).0).0
  unfolding steps
  steps-append [] fs p = refl
  steps-append (e ∷ es) fs p = steps-append es fs (step url_of e p).0

  request-steps :
      (es : List (Event E)) (p : Page E)
      → all is_quiet es ≡ true
      → browse_request (steps url_of es p).0
        ≡ asked p.applied (last_page es (p.page_index, p.page_size))
  request-steps es p h = ap (λ r. asked r.0 r.1) (read-steps es p h)

  -- However the form is edited, pages are turned, events are deleted and replayed before and after: the
  -- list asks with the filters that the form held when they were applied last, from the page chosen
  -- since then, or the first; and after they were cleared last, with no filter, in the same way.
  pub browse_request-steps :
      (before after : List (Event E)) (p : Page E)
      → all is_quiet after ≡ true
      → let q = (steps url_of before p).0 in
        let page = last_page after (0, q.page_size) in
        (browse_request (steps url_of (before ++ apply_clicked ∷ after) p).0 ≡ asked q.filters page)
        × (browse_request (steps url_of (before ++ clear_clicked ∷ after) p).0
            ≡ asked no_filters page)
  unfolding steps step apply_filters clear_filters
  browse_request-steps before after p h =
      let q = (steps url_of before p).0 in
      (
        ap browse_request (steps-append before (apply_clicked ∷ after) p)
            ∙ request-steps after (apply_filters q) h,
        ap browse_request (steps-append before (clear_clicked ∷ after) p)
            ∙ request-steps after (clear_filters q) h,
      )

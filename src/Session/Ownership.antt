-- ===== src/Session/Ownership.antt =====
-- Nothing that one user loaded is left for the next.
use integr8s_code.Base.{◌≡◌, ◌⊎◌, none, some, All}
use integr8s_code.Shell.{Shell}
use integr8s_code.Session.{Session}

-- The cached data is the user's.
abbrev pub AllOwned : Session → Type 0
AllOwned s = All (λ e. s.user ≡ some e.1) s.cache

record IsOwn (s : Session) : Type 0 where
  pub owned : AllOwned s
  pub server : (s.server ≡ none) ⊎ (s.server ≡ s.user)

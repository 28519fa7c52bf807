-- ===== src/Session/Examples.antt =====
-- Two users in one tab.
use integr8s_code.Base.{◌≡◌, refl, true, false, none, some, List, [], ◌∷◌, ◌++◌, Text, codes}
use integr8s_code.Errors.{show_api_error, handle_401}
use integr8s_code.Shell.{Shell, light}
use integr8s_code.Guards.{Router}
use integr8s_code.Guards.Login.{Pages, on_login}
use integr8s_code.Session.{
  nobody, Event, expired, asked, signed_in, ask, show_effects, login_effects, step, steps,
}

abbrev router : Router
router = record { resolve = λ path. path; search_params = λ key value. key ++ value }

abbrev pages : Pages
pages = record { match = λ path. none; get = λ query key. none }

abbrev header : Shell Text
header = record {
  menu_requested = false;
  signed_in = true;
  mode = light;
  settings = none;
  saving = [];
}

-- The session of the first user expires, which a query finds out.
abbrev events : List Event
events =
    signed_in (codes "ann") []
    ∷ asked (codes "scripts") false
    ∷ expired
    ∷ asked (codes "settings") true
    ∷ asked (codes "settings") false
    ∷ signed_in (codes "bob") []
    ∷ asked (codes "scripts") false
    ∷ []

steps-run : steps router pages header events nobody ≡ record {
  user = some (codes "bob");
  server = some (codes "bob");
  cache = (codes "scripts", codes "bob") ∷ [];
}
unfolding steps step ask show_effects show_api_error handle_401 login_effects on_login
steps-run = refl

-- Who signs in on the login page while another is still signed in gets the other's data.
left_over-run :
    steps router pages header
      (signed_in (codes "ann") [] ∷ asked (codes "scripts") false ∷ signed_in (codes "bob") [] ∷ [])
      nobody
    ≡ record {
      user = some (codes "bob");
      server = some (codes "bob");
      cache = (codes "scripts", codes "ann") ∷ [];
    }
unfolding steps step ask show_effects show_api_error handle_401 login_effects on_login
left_over-run = refl

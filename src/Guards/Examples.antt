-- ===== src/Guards/Examples.antt =====
-- Runs of the guards.
use integr8s_code.Base.{
  ◌≡◌, ◌↔◌, true, if◌then◌else◌, text_eq, strip_prefix, none, some, [], ◌∷◌, ◌++◌, codes,
}
use integr8s_code.Api.{admin}
use integr8s_code.Guards.{UserResponse, Url, Router, loaded, auth_load, admin_load, visit}
use integr8s_code.Guards.Access.{is_answered, visit-admits}
use integr8s_code.Guards.Login.{Pages, destination}
use integr8s_code.Guards.Login.Returning.{IsPage, destination-IsPage}

abbrev router : Router
router = record { resolve = λ path. path; search_params = λ k v. k ++ b'=' ∷ v }

abbrev page : Url
page = record { pathname = codes "/admin/events"; search = [] }

abbrev root : UserResponse
root = record { username = "root"; role = admin }

visit-admits_example :
    ((visit (auth_load router page) (some root) none ≡ loaded root)
      ↔ ((some root ≡ some root) × (is_answered none ≡ true)))
    × ((visit (admin_load router page) (some root) none ≡ loaded root)
        ↔ (((some root ≡ some root) × (root.role ≡ admin)) × (is_answered none ≡ true)))
visit-admits_example = visit-admits router page (some root) none root

abbrev pages : Pages
pages = record {
  match =
      λ path. if text_eq path (codes "/admin/events") then some (codes "/admin/events") else none;
  get = λ query key. strip_prefix (key ++ b'=' ∷ []) query;
}

destination-IsPage_example :
    IsPage router pages (destination router pages (codes "redirect=https://example.org"))
destination-IsPage_example = destination-IsPage router pages (codes "redirect=https://example.org")

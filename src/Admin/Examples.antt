-- ===== src/Admin/Examples.antt =====
-- Runs of the admin tables.
use integr8s_code.Base.{◌+◌, ◌<◌, ◌≤◌, ◌≡◌, refl, arith, some, List, [], ◌∷◌, codes}
use integr8s_code.Admin.Paging.{Pagination, range, shown}
use integr8s_code.Admin.Paging.Ranges.{range-sent}
use integr8s_code.Admin.Users.{
  Event, no_filters, filters_changed, paged, reset_clicked, initial, step, steps, reset,
  users_query, has_filters_active,
}

abbrev third : Pagination
third = record { page_index = 2; page_size = 10 }

range-sent_example :
    (shown third 23 ≡ some (record { first = 21; last = 23 }))
    × (0 < 3)
    × (23 ≤ 23)
    × (30 < 23
        → (range (record { page_index = 3; page_size = 10 }) 23).first ≡ (range third 23).last + 1)
range-sent_example = range-sent third 23 (ground arith) (ground arith)

abbrev events : List Event
events = filters_changed (record no_filters { search = some (codes "ann") }) ∷ paged 4 10 ∷ []

-- The fifth page of a search, and the first again once it is reset.
users_query-run :
    ((users_query (steps events initial)).offset ≡ 40)
    × ((users_query (step reset_clicked (steps events initial))).offset ≡ 0)
unfolding users_query steps step reset has_filters_active
users_query-run = (refl, refl)

-- ===== src/Datahub/Tests.antt =====
-- Two pages of DataHub, and the theorems at them.
use lineageguard.Base.{ℕ, ◌≡◌, refl, ◌↔◌, ◌≤◌, some, [], ◌∷◌, ◌==◌, if◌then◌else◌, length}
use lineageguard.Base.Results.{returns, throws}
use lineageguard.Datahub.Pagination.{
  absent, natural, Fetcher, fetch_failed, max_pages, collect_bounded_pages,
}
use lineageguard.Datahub.Pages.{Pages, collect_bounded_pages_iff, length-collect_bounded_pages}

abbrev two_pages : Fetcher ℕ
two_pages offset size =
    if offset == 0
    then returns (record { items = some (7 ∷ 8 ∷ []); next_offset = natural 2 })
    else (if offset == 2
        then returns (record { items = some (9 ∷ []); next_offset = absent })
        else throws fetch_failed)

collected : collect_bounded_pages two_pages ≡ returns (7 ∷ 8 ∷ 9 ∷ [])
unfolding collect_bounded_pages
collected = refl

collect_bounded_pages_iff_example :
    (collect_bounded_pages two_pages ≡ returns (7 ∷ 8 ∷ 9 ∷ []))
    ↔ Pages two_pages max_pages 0 (7 ∷ 8 ∷ 9 ∷ [])
collect_bounded_pages_iff_example = collect_bounded_pages_iff two_pages (7 ∷ 8 ∷ 9 ∷ [])

length-collect_bounded_pages_example : length {A = ℕ} (7 ∷ 8 ∷ 9 ∷ []) ≤ 200
length-collect_bounded_pages_example =
    length-collect_bounded_pages two_pages (7 ∷ 8 ∷ 9 ∷ []) collected

-- ===== src/Datahub/Pages.antt =====
-- packages/datahub/src/pagination.ts: what `collectBoundedPages` returns, as a chain of pages.
use lineageguard.Base.{
  ℕ, zero, suc, ◌+◌, ◌*◌, ◌≡◌, refl, sym, ap, ◌∙◌, ◌↔◌, ◌≤◌, ◌<◌, true, false, not, some, List, [],
  ◌∷◌, ◌++◌, ◌==◌, leb, ltb, length, length-append, all, arith, le→leb,
}
use lineageguard.Base.Results.{Outcome, returns, through, passed, returns-injective}
use mathlib.Core.List.{append_assoc}
use mathlib.Core.Path.{subst}
use lineageguard.Datahub.Pagination.{
  page_size, max_pages, max_items, max_safe_integer, NextOffset, absent, natural, other_number,
  Page, PageError, pagination_limit, Fetcher, has_offset, items_of, advance_to, follow, rounds_from,
  collect_bounded_pages,
}

-- Fetches from an offset on: every page has at most 50 items, each one but the last has some and
-- names a later offset, and there are at most so many pages.
pub data Pages {ℓ} {T : Type ℓ} (fetch_page : Fetcher T) : ℕ → ℕ → List T → Type ℓ where
  last :
      (n offset : ℕ) (items : List T)
      → fetch_page offset page_size ≡ returns (record { items = some items; next_offset = absent })
      → length items ≤ page_size
      → Pages fetch_page (suc n) offset items
  more :
      (n offset next : ℕ) (item : T) (items rest : List T)
      → fetch_page offset page_size
        ≡ returns (record { items = some (item ∷ items); next_offset = natural next })
      → length (item ∷ items) ≤ page_size
      → offset < next
      → next ≤ max_safe_integer
      → Pages fetch_page n next rest
      → Pages fetch_page (suc n) offset (item ∷ items ++ rest)

module _ {ℓ} {T : Type ℓ} (fetch_page : Fetcher T) where
  items_of-returns :
      (page : Page T) (collected items : List T)
      → items_of fetch_page page collected ≡ returns items
      → (page.items ≡ some items) × (length items ≤ page_size)
  items_of-returns page collected items h = ground arith

  advance_to-returns :
      (n next offset : ℕ) (items : List T) (visited : List ℕ)
      → advance_to fetch_page (natural n) items offset visited ≡ returns next
      → (n ≡ next) × (offset < n) × (n ≤ max_safe_integer) × ((length items == 0) ≡ false)
  advance_to-returns n next offset items visited h = ground arith

  -- One round that returns: its page was the last one, or the later rounds return.
  follow-Pages :
      (o : NextOffset) (page : Page T) (items collected : List T) (rounds offset : ℕ)
      (visited : List ℕ) (continue_at : ℕ → Outcome PageError (List T)) (xs : List T)
      → page.next_offset ≡ o
      → page.items ≡ some items
      → length items ≤ page_size
      → fetch_page offset page_size ≡ returns page
      → ((next : ℕ)
          → continue_at next ≡ returns xs
          → (rest : List T) × (xs ≡ (collected ++ items) ++ rest)
            × Pages fetch_page rounds next rest)
      → follow fetch_page o items collected rounds offset visited continue_at ≡ returns xs
      → (rest : List T) × (xs ≡ collected ++ rest) × Pages fetch_page (suc rounds) offset rest
  follow-Pages absent page items collected rounds offset visited continue_at xs o i short f later
        h =
      let is : page ≡ record { items = some items; next_offset = absent } = cc in
      (items, sym (returns-injective h), last rounds offset items (f ∙ ap returns is) short)
  follow-Pages (natural n) page [] collected rounds offset visited continue_at xs o i short f later
        h =
      cc
  follow-Pages (natural n) page (x ∷ items) collected rounds offset visited continue_at xs o i short
        f later h =
      let (next, a, h1) =
        through (advance_to fetch_page (natural n) (x ∷ items) offset visited) h in
      let (_, h2) = passed (not (rounds == 0)) pagination_limit h1 in
      let (same, forward, safe, _) = advance_to-returns n next offset (x ∷ items) visited a in
      let is : page ≡ record { items = some (x ∷ items); next_offset = natural n } = cc in
      let (rest, whole, pages) = later next h2 in
      (
        x ∷ items ++ rest,
        whole ∙ append_assoc collected (x ∷ items) rest,
        more rounds offset n x items rest (f ∙ ap returns is) short forward safe
            (subst (λ m. Pages fetch_page rounds m rest) (sym same) pages),
      )
  follow-Pages other_number page items collected rounds offset visited continue_at xs o i short f
        later h =
      cc

  rounds_from_sound :
      (rounds offset : ℕ) (visited : List ℕ) (collected xs : List T)
      → rounds_from fetch_page rounds offset visited collected ≡ returns xs
      → (rest : List T) × (xs ≡ collected ++ rest) × Pages fetch_page rounds offset rest
  unfolding rounds_from
  rounds_from_sound zero offset visited collected xs h = cc
  rounds_from_sound (suc rounds) offset visited collected xs h =
      let (page, f, h1) = through (fetch_page offset page_size) h in
      let (items, i, h2) = through (items_of fetch_page page collected) h1 in
      let (items_are, short) = items_of-returns page collected items i in
      follow-Pages page.next_offset page items collected rounds offset visited
        (λ next. rounds_from fetch_page rounds next (next ∷ visited) (collected ++ items)) xs refl
        items_are short f
        (λ next. rounds_from_sound rounds next (next ∷ visited) (collected ++ items) xs) h2

  -- Every visited offset lies at or before the present one.
  unvisited :
      (visited : List ℕ) (offset next : ℕ)
      → all (λ o. leb o offset) visited ≡ true
      → offset < next
      → has_offset visited next ≡ false
  unvisited [] offset next h l = refl
  unvisited (o ∷ os) offset next h l = ground (arith, unvisited os offset next)

  visited_later :
      (visited : List ℕ) (offset next : ℕ)
      → all (λ o. leb o offset) visited ≡ true
      → offset < next
      → all (λ o. leb o next) visited ≡ true
  visited_later [] offset next h l = refl
  visited_later (o ∷ os) offset next h l = ground (arith, visited_later os offset next)

  ltb_forward : (a b : ℕ) → a < b → ltb a b ≡ true
  ltb_forward a b h = ground arith

  some_items : (n : ℕ) → (suc n == 0) ≡ false
  some_items n = ground arith

  positive : (n offset : ℕ) (xs : List T) → Pages fetch_page n offset xs → (n == 0) ≡ false
  positive _ offset xs (last n _ _ _ _) = ground arith
  positive _ offset xs (more n _ _ _ _ _ _ _ _ _ _) = ground arith

  rounds_from_complete :
      (rounds offset : ℕ) (visited : List ℕ) (collected rest : List T)
      → length collected + rounds * page_size ≤ max_items
      → all (λ o. leb o offset) visited ≡ true
      → Pages fetch_page rounds offset rest
      → rounds_from fetch_page rounds offset visited collected ≡ returns (collected ++ rest)
  unfolding rounds_from
  rounds_from_complete _ _ visited collected rest room past (last n offset items f short) =
      rw f (ground arith)
  rounds_from_complete _ _ visited collected rest room past
        (more n offset next item items later f short forward safe p) =
      let ih =
        rounds_from_complete n next (next ∷ visited) (collected ++ item ∷ items) later
          (omega (arith, length-append collected (item ∷ items)))
          (ground (arith, visited_later visited offset next)) p in
      rw
        (
          f,
          le→leb (length (item ∷ items)) page_size short,
          le→leb (length collected + length (item ∷ items)) max_items (omega arith),
          le→leb next max_safe_integer safe,
          ltb_forward offset next forward,
          unvisited visited offset next past forward,
          positive n next later p,
          some_items (length items),
          ih,
          append_assoc collected (item ∷ items) later,
        )
        refl

length-Pages {ℓ} :
    {T : Type ℓ} (fetch_page : Fetcher T) (n offset : ℕ) (xs : List T)
    → Pages fetch_page n offset xs
    → length xs ≤ n * page_size
length-Pages fetch_page _ _ _ (last n offset items f short) = omega arith
length-Pages fetch_page _ _ _ (more n offset next item items rest f short forward safe p) =
    omega (arith, length-append (item ∷ items) rest, length-Pages fetch_page n next rest p)

-- The collection returns exactly what a chain of at most four pages from offset 0 gives, in order:
-- each page has at most 50 items, and each one but the last has some and names a later offset. So
-- the checks of the item limit and of the visited offsets refuse nothing more.
pub collect_bounded_pages_iff {ℓ} :
    {T : Type ℓ} (fetch_page : Fetcher T) (xs : List T)
    → (collect_bounded_pages fetch_page ≡ returns xs) ↔ Pages fetch_page max_pages 0 xs
unfolding collect_bounded_pages
collect_bounded_pages_iff fetch_page xs = (
  λ h.
      let (rest, e, p) = rounds_from_sound fetch_page max_pages 0 (0 ∷ []) [] xs h in
      subst (Pages fetch_page max_pages 0) (sym e) p,
  λ p. rounds_from_complete fetch_page max_pages 0 (0 ∷ []) [] xs (omega arith) refl p,
)

-- At most 200 items are collected.
pub length-collect_bounded_pages {ℓ} :
    {T : Type ℓ} (fetch_page : Fetcher T) (xs : List T)
    → collect_bounded_pages fetch_page ≡ returns xs
    → length xs ≤ 200
length-collect_bounded_pages fetch_page xs h =
    omega (
      arith,
      length-Pages fetch_page max_pages 0 xs ((collect_bounded_pages_iff fetch_page xs).0 h),
    )

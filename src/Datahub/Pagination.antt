-- ===== src/Datahub/Pagination.antt =====
-- packages/datahub/src/pagination.ts: `collectBoundedPages`. The fetcher, a call of the service, is
-- an argument: it gives a page or throws, for an offset and a page size. Offsets are the integers
-- that a page may name: a page that names none, or none that is a natural number, says so.
use lineageguard.Base.{
  ℕ, zero, suc, ◌+◌, Bool, not, ◌&&◌, Option, none, some, List, [], ◌∷◌, ◌++◌, ◌==◌, leb, ltb,
  length, any,
}
use lineageguard.Base.Results.{Outcome, returns, throws, ensure, ◌>>=◌, ◌>>◌}

abbrev pub page_size : ℕ
page_size = 50

abbrev pub max_pages : ℕ
max_pages = 4

abbrev pub max_items : ℕ
max_items = 200

abbrev pub max_safe_integer : ℕ
max_safe_integer = 9_007_199_254_740_991

-- `nextOffset`: undefined, a natural number, or any other number.
pub data NextOffset : Type 0 where
  absent : NextOffset
  natural : ℕ → NextOffset
  other_number : NextOffset

-- `items` is no array when it is none.
pub record Page {ℓ} (T : Type ℓ) : Type ℓ where
  pub items : Option (List T)
  pub next_offset : NextOffset

pub data PageError : Type 0 where
  fetch_failed malformed_response pagination_limit cursor_cycle : PageError

abbrev pub Fetcher {ℓ} : Type ℓ → Type ℓ
Fetcher T = (offset size : ℕ) → Outcome PageError (Page T)

-- `visitedOffsets.has`.
abbrev pub has_offset : List ℕ → ℕ → Bool
has_offset visited offset = any (λ o. o == offset) visited

module _ {ℓ} {T : Type ℓ} (fetch_page : Fetcher T) where
  -- The checks of a page's items.
  abbrev pub items_of : Page T → (collected : List T) → Outcome PageError (List T)
  items_of page collected = elim page.items [
    | none ↦ throws malformed_response
    | some items ↦ do
      ensure (leb (length items) page_size) pagination_limit
      ensure (leb (length collected + length items) max_items) pagination_limit
      returns items
  ]

  -- The offset that the next round takes.
  abbrev pub advance_to : NextOffset → List T → (offset : ℕ) → List ℕ → Outcome PageError ℕ
  advance_to absent items offset visited = throws cursor_cycle
  advance_to other_number items offset visited = throws cursor_cycle
  advance_to (natural next) items offset visited = do
    ensure
        (not (length items == 0)
          && leb next max_safe_integer
          && ltb offset next
          && not (has_offset visited next))
        cursor_cycle
    returns next

  -- What a round does after the items: it ends the loop or goes on at the next offset. `rounds` is
  -- what the loop has left of its `MAX_PAGES` rounds after this one.
  abbrev pub follow :
      NextOffset
      → (items collected : List T) → (rounds offset : ℕ) → List ℕ
      → (continue_at : ℕ → Outcome PageError (List T)) → Outcome PageError (List T)
  follow absent items collected rounds offset visited continue_at = returns (collected ++ items)
  follow (natural n) items collected rounds offset visited continue_at = do
    next ← advance_to (natural n) items offset visited
    ensure (not (rounds == 0)) pagination_limit
    continue_at next
  follow other_number items collected rounds offset visited continue_at = throws cursor_cycle

  unfoldable pub rounds_from :
      (rounds offset : ℕ) → (visited : List ℕ) → (collected : List T) → Outcome PageError (List T)
  rounds_from zero offset visited collected = throws pagination_limit
  rounds_from (suc rounds) offset visited collected = do
    page ← fetch_page offset page_size
    items ← items_of page collected
    follow page.next_offset items collected rounds offset visited
        λ next. rounds_from rounds next (next ∷ visited) (collected ++ items)

  unfoldable pub collect_bounded_pages : Outcome PageError (List T)
  unfolding rounds_from
  collect_bounded_pages = rounds_from max_pages 0 (0 ∷ []) []

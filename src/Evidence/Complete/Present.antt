-- ===== src/Evidence/Complete/Present.antt =====
-- packages/domain/src/evidence.ts: the items that a complete context has.
use mathlib.Core.List.{Memᴰ}
use mathlib.Core.List.Memᴰ
use lineageguard.Base.{
  Bool, true, ◌&&◌, ◌≡◌, refl, List, [], ◌∷◌, inl, inr, arith, Bool-cases, length, ◌==◌,
}
use lineageguard.Evidence.Items.{
  Lifecycle, development, production, retired, ModelPayload, Payload, ml_model, EvidenceItem,
}
use lineageguard.Evidence.Complete.{
  Kind, paths, dashboards, models, queries, is_kind, of_kind, is_critical, is_high, is_production,
  canonical_query, sole, canonical_dashboard, canonical_model, canonical_evidence,
}

pub Memᴰ-of_kind :
    (k : Kind) {i : EvidenceItem} (items : List EvidenceItem)
    → Memᴰ i (of_kind k items)
    → Memᴰ i items × (is_kind k i.payload ≡ true)
Memᴰ-of_kind k [] m = absurd (Memᴰ.not-nil m)
Memᴰ-of_kind k {i} (j ∷ items) m = elim (Bool-cases (is_kind k j.payload)) [
  | inl e ↦ elim (Memᴰ.cases_cons (rw (e, of_kind) at m)) [
    | inl same ↦ (Memᴰ.head same, rw same e)
    | inr l ↦ let (n, q) = Memᴰ-of_kind k items l in (Memᴰ.tail n, q)
  ]
  | inr e ↦ let (n, q) = Memᴰ-of_kind k items (rw (e, of_kind) at m) in (Memᴰ.tail n, q)
]

sole_lem :
    (test : EvidenceItem → Bool) (items : List EvidenceItem)
    → sole test items ≡ true
    → (i : EvidenceItem) × Memᴰ i items × (test i ≡ true)
sole_lem test [] h = cc
sole_lem test (i ∷ []) h = (i, Memᴰ.head refl, h)
sole_lem test (i ∷ j ∷ items) h = cc

sole-of_kind :
    (k : Kind) (test : EvidenceItem → Bool) (items : List EvidenceItem)
    → sole test (of_kind k items) ≡ true
    → (i : EvidenceItem) × Memᴰ i items × (is_kind k i.payload ≡ true) × (test i ≡ true)
sole-of_kind k test items h =
    let (i, m, e) = sole_lem test (of_kind k items) h in
    let (n, q) = Memᴰ-of_kind k items m in (i, n, q, e)

two_lem :
    (items : List EvidenceItem) → (length items == 2) ≡ true → (i : EvidenceItem) × Memᴰ i items
two_lem [] h = cc
two_lem (i ∷ items) h = (i, Memᴰ.head refl)

-- A complete context has a lineage path, a critical dashboard, a production model and a query.
pub record Present (evidence : List EvidenceItem) : Type 0 where
  pub path : (i : EvidenceItem) × Memᴰ i evidence × (is_kind paths i.payload ≡ true)
  pub board :
      (i : EvidenceItem) × Memᴰ i evidence
      × (is_kind dashboards i.payload ≡ true)
      × (is_critical i.criticality ≡ true)
  pub model :
      (i : EvidenceItem) × Memᴰ i evidence
      × (p : ModelPayload) × (i.payload ≡ ml_model p)
      × (p.lifecycle ≡ production)
  pub query : (i : EvidenceItem) × Memᴰ i evidence × (is_kind queries i.payload ≡ true)

and_left : (a b : Bool) → (a && b) ≡ true → a ≡ true
and_left a b h = ground arith

and_right : (a b : Bool) → (a && b) ≡ true → b ≡ true
and_right a b h = ground arith

production_lem : (l : Lifecycle) → is_production l ≡ true → l ≡ production
production_lem production h = refl
production_lem development h = cc
production_lem retired h = cc

production_model :
    (p : Payload)
    → canonical_model p ≡ true
    → (q : ModelPayload) × (p ≡ ml_model q) × (q.lifecycle ≡ production)
unfolding canonical_model
production_model (ml_model p) h = (p, refl, production_lem p.lifecycle (ground arith))
production_model _ h = cc

abbrev board : EvidenceItem → Bool
unfolding canonical_dashboard
board i = canonical_dashboard i.payload && is_critical i.criticality

abbrev live : EvidenceItem → Bool
unfolding canonical_model
live i = canonical_model i.payload && is_critical i.criticality

abbrev observed : EvidenceItem → Bool
unfolding canonical_query
observed i = canonical_query i.payload && is_high i.criticality

module _ (evidence : List EvidenceItem) (h : canonical_evidence evidence ≡ true) where
  two_paths : (length (of_kind paths evidence) == 2) ≡ true
  unfolding canonical_evidence
  two_paths = ground arith

  sole-board : sole board (of_kind dashboards evidence) ≡ true
  unfolding canonical_evidence board
  sole-board = ground arith

  sole-live : sole live (of_kind models evidence) ≡ true
  unfolding canonical_evidence live
  sole-live = ground arith

  sole-observed : sole observed (of_kind queries evidence) ≡ true
  unfolding canonical_evidence observed
  sole-observed = ground arith

  path_present : (i : EvidenceItem) × Memᴰ i evidence × (is_kind paths i.payload ≡ true)
  path_present =
      let (i, m) = two_lem (of_kind paths evidence) two_paths in
      let (n, k) = Memᴰ-of_kind paths evidence m in (i, n, k)

  board_present :
      (i : EvidenceItem) × Memᴰ i evidence
      × (is_kind dashboards i.payload ≡ true)
      × (is_critical i.criticality ≡ true)
  unfolding board
  board_present =
      let (i, m, k, t) = sole-of_kind dashboards board evidence sole-board in
      (i, m, k, and_right (canonical_dashboard i.payload) (is_critical i.criticality) t)

  model_present :
      (i : EvidenceItem) × Memᴰ i evidence
      × (p : ModelPayload) × (i.payload ≡ ml_model p)
      × (p.lifecycle ≡ production)
  unfolding live
  model_present =
      let (i, m, _, t) = sole-of_kind models live evidence sole-live in
      let (p, same, l) =
        production_model i.payload
          (and_left (canonical_model i.payload) (is_critical i.criticality) t) in
      (i, m, p, same, l)

  query_present : (i : EvidenceItem) × Memᴰ i evidence × (is_kind queries i.payload ≡ true)
  query_present =
      let (i, m, k, _) = sole-of_kind queries observed evidence sole-observed in (i, m, k)

  pub canonical_evidence-Present : Present evidence
  canonical_evidence-Present = record {
    path = path_present;
    board = board_present;
    model = model_present;
    query = query_present;
  }

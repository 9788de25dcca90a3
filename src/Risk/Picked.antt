-- ===== src/Risk/Picked.antt =====
-- packages/domain/src/risk.ts: what stays true of the IDs when some of the evidence is picked.
use lineageguard.Base.{
  ℕ, String, Bool, true, false, ◌≡◌, refl, inl, inr, List, [], ◌∷◌, map, arith, all, select,
  contains, length, leb, Bool-cases,
}
use lineageguard.Base.Sort.{is_distinct}
use lineageguard.Base.Order.{ordered}
use lineageguard.Evidence.Items.{EvidenceItem}

pub all_imp {ℓ} :
    {A : Type ℓ} (p q : A → Bool) (xs : List A)
    → ((x : A) → p x ≡ true → q x ≡ true)
    → all p xs ≡ true
    → all q xs ≡ true
all_imp p q [] h k = refl
all_imp p q (x ∷ xs) h k = ground (arith, h x, all_imp p q xs h)

pub all-map-select :
    (q : String → Bool) (p : EvidenceItem → Bool) (items : List EvidenceItem)
    → all q (map (λ i. i.id) items) ≡ true
    → all q (map (λ i. i.id) (select p items)) ≡ true
all-map-select q p [] h = refl
all-map-select q p (i ∷ items) h = elim (Bool-cases (p i)) [
  | inl e ↦ rw (select, e) (ground (arith, all-map-select q p items))
  | inr e ↦ rw (select, e) (ground (arith, all-map-select q p items))
]

pub contains-map-select :
    (p : EvidenceItem → Bool) (items : List EvidenceItem) (s : String)
    → contains (map (λ i. i.id) items) s ≡ false
    → contains (map (λ i. i.id) (select p items)) s ≡ false
contains-map-select p [] s h = refl
contains-map-select p (i ∷ items) s h = elim (Bool-cases (p i)) [
  | inl e ↦ rw (select, e) (ground (arith, contains-map-select p items s))
  | inr e ↦ rw (select, e) (ground (arith, contains-map-select p items s))
]

pub is_distinct-map-select :
    (p : EvidenceItem → Bool) (items : List EvidenceItem)
    → is_distinct (map (λ i. i.id) items) ≡ true
    → is_distinct (map (λ i. i.id) (select p items)) ≡ true
is_distinct-map-select p [] h = refl
is_distinct-map-select p (i ∷ items) h = elim (Bool-cases (p i)) [
  | inl e ↦
      rw (select, e)
        (ground (arith, is_distinct-map-select p items, contains-map-select p items i.id))
  | inr e ↦ rw (select, e) (ground (arith, is_distinct-map-select p items))
]

pub length-map-select :
    (p : EvidenceItem → Bool) (items : List EvidenceItem) (n : ℕ)
    → leb (length (map (λ i. i.id) items)) n ≡ true
    → leb (length (map (λ i. i.id) (select p items))) n ≡ true
length-map-select p items n h = ground (arith, shorter items)
  where
    shorter :
        (xs : List EvidenceItem)
        → leb (length (map (λ i. i.id) (select p xs))) (length (map (λ i. i.id) xs)) ≡ true
    shorter [] = refl
    shorter (x ∷ xs) = ground (arith, shorter xs)

-- The order of the IDs of a list is that of the items by their IDs.
pub ordered-map :
    (before : String → String → Bool) (items : List EvidenceItem)
    → ordered before (map (λ i. i.id) items) ≡ ordered (λ l r. before l.id r.id) items
ordered-map before [] = refl
ordered-map before (i ∷ items) = ground (arith, all-map i.id items, ordered-map before items)
  where
    all-map :
        (s : String) (xs : List EvidenceItem)
        → all (before s) (map (λ j. j.id) xs) ≡ all (λ j. before s j.id) xs
    all-map s [] = refl
    all-map s (x ∷ xs) = ground (arith, all-map s xs)

-- ===== src/Base/Members.antt =====
-- Boolean searches through a list and membership in it.
use mathlib.Core.Path.{◌≡◌, refl}
use mathlib.Core.Logic.{inl, inr}
use mathlib.Core.Bool.{Bool, true, ◌&&◌}
use mathlib.Core.List.{List, [], ◌∷◌, Memᴰ}
use mathlib.Core.List.Memᴰ
use native.Mathlib.Omega.{arith}
use Prim.Native.String.{String}
use text.Mathlib.TextEquality.{eq_iff}
use lineageguard.Base.Tests.{◌===◌, Bool-cases}
use lineageguard.Base.Lists.{all, any, select, contains}
use lineageguard.Base.Sort.{insert, sort}

module _ {ℓ} {A : Type ℓ} where
  pub all-Memᴰ : (p : A → Bool) {x : A} {xs : List A} → all p xs ≡ true → Memᴰ x xs → p x ≡ true
  all-Memᴰ p h (Memᴰ.head e) = rw e (ground arith)
  all-Memᴰ p h (Memᴰ.tail m) = all-Memᴰ p (ground arith) m

  pub any-Memᴰ : (p : A → Bool) {x : A} {xs : List A} → p x ≡ true → Memᴰ x xs → any p xs ≡ true
  any-Memᴰ p {x} h (Memᴰ.head {x = y} e) = let q : p y ≡ true = rw (← e) h in ground arith
  any-Memᴰ p h (Memᴰ.tail m) = ground (arith, any-Memᴰ p h m)

  pub Memᴰ_of_any :
      (p : A → Bool) (xs : List A) → any p xs ≡ true → (x : A) × Memᴰ x xs × (p x ≡ true)
  Memᴰ_of_any p [] h = cc
  Memᴰ_of_any p (x ∷ xs) h = elim (Bool-cases (p x)) [
    | inl e ↦ (x, Memᴰ.head refl, e)
    | inr e ↦ let (y, m, q) = Memᴰ_of_any p xs (ground arith) in (y, Memᴰ.tail m, q)
  ]

  pub any-select : (p q : A → Bool) (xs : List A) → any p (select q xs) ≡ any (λ x. q x && p x) xs
  any-select p q [] = refl
  any-select p q (x ∷ xs) = ground (arith, any-select p q xs)

  any-insert :
      (p : A → Bool) (before : A → A → Bool) (x : A) (xs : List A)
      → any p (insert before x xs) ≡ any p (x ∷ xs)
  unfolding insert
  any-insert p before x [] = refl
  any-insert p before x (y ∷ ys) = ground (arith, any-insert p before x ys)

  pub any-sort :
      (p : A → Bool) (before : A → A → Bool) (xs : List A) → any p (sort before xs) ≡ any p xs
  unfolding sort
  any-sort p before [] = refl
  any-sort p before (x ∷ xs) =
      ground (arith, any-insert p before x (sort before xs), any-sort p before xs)

  pub Memᴰ-select :
      (p : A → Bool) {x : A} (xs : List A) → Memᴰ x (select p xs) → Memᴰ x xs × (p x ≡ true)
  Memᴰ-select p [] m = absurd (Memᴰ.not-nil m)
  Memᴰ-select p {x} (y ∷ ys) m = elim (Bool-cases (p y)) [
    | inl e ↦ elim (Memᴰ.cases_cons (rw (e, select) at m)) [
      | inl same ↦ (Memᴰ.head same, rw same e)
      | inr k ↦ let (l, q) = Memᴰ-select p ys k in (Memᴰ.tail l, q)
    ]
    | inr e ↦ let (l, q) = Memᴰ-select p ys (rw (e, select) at m) in (Memᴰ.tail l, q)
  ]

  pub select-all :
      (p : A → Bool) (xs : List A) → ((x : A) → Memᴰ x xs → p x ≡ true) → select p xs ≡ xs
  select-all p [] h = refl
  select-all p (x ∷ xs) h =
      rw (select, h x (Memᴰ.head refl), select-all p xs (λ y m. h y (Memᴰ.tail m))) refl

  Memᴰ-insert :
      (before : A → A → Bool) {y : A} (x : A) (xs : List A)
      → Memᴰ y (insert before x xs)
      → Memᴰ y (x ∷ xs)
  unfolding insert
  Memᴰ-insert before x [] m = m
  Memᴰ-insert before {y} x (z ∷ zs) m = elim (Bool-cases (before x z)) [
    | inl e ↦ let k : Memᴰ y (x ∷ z ∷ zs) = rw e at m in k
    | inr e ↦ elim (Memᴰ.cases_cons (rw e at m)) [
      | inl same ↦ Memᴰ.tail (Memᴰ.head same)
      | inr k ↦ elim (Memᴰ.cases_cons (Memᴰ-insert before x zs k)) [
        | inl same ↦ Memᴰ.head same
        | inr l ↦ Memᴰ.tail (Memᴰ.tail l)
      ]
    ]
  ]

  pub Memᴰ-sort :
      (before : A → A → Bool) {y : A} (xs : List A) → Memᴰ y (sort before xs) → Memᴰ y xs
  unfolding sort
  Memᴰ-sort before [] m = m
  Memᴰ-sort before (x ∷ xs) m = elim (Memᴰ.cases_cons (Memᴰ-insert before x (sort before xs) m)) [
    | inl e ↦ Memᴰ.head e
    | inr k ↦ Memᴰ.tail (Memᴰ-sort before xs k)
  ]

-- A text is contained as soon as it is a member.
pub contains-Memᴰ : (s : String) (xs : List String) → Memᴰ s xs → contains xs s ≡ true
contains-Memᴰ s [] m = absurd (Memᴰ.not-nil m)
contains-Memᴰ s (x ∷ xs) m = elim (Memᴰ.cases_cons m) [
  | inl e ↦ ground (arith, eq_iff s x)
  | inr k ↦ ground (arith, contains-Memᴰ s xs k)
]

pub Memᴰ_of_contains : (s : String) (xs : List String) → contains xs s ≡ true → Memᴰ s xs
Memᴰ_of_contains s [] h = cc
Memᴰ_of_contains s (x ∷ xs) h = elim (Bool-cases (s === x)) [
  | inl e ↦ Memᴰ.head ((eq_iff s x).0 e)
  | inr e ↦ Memᴰ.tail (Memᴰ_of_contains s xs (ground arith))
]

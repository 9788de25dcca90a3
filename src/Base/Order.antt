-- ===== src/Base/Order.antt =====
-- Lists in order, and the default order of strings.
use Prim.Native.Nat.{ℕ}
use Prim.Native.String.{String}
use mathlib.Core.Path.{◌≡◌, refl, sym, subst, ap, ◌∙◌}
use mathlib.Core.Logic.{inl, inr}
use mathlib.Core.Bool.{Bool, true, false, ◌&&◌}
use mathlib.Core.List.{List, [], ◌∷◌}
use native.Mathlib.Omega.{arith}
use text.Mathlib.TextEquality.{eq_iff}
use lineageguard.Base.Tests.{Bool-cases}
use lineageguard.Base.Lists.{all, select}
use lineageguard.Base.Sort.{
  insert, sort, units_le, utf16, string_le, sort_strings, same_texts, is_sorted,
}

module _ {ℓ} {A : Type ℓ} (before : A → A → Bool) where
  -- Each item comes before all that follow it.
  abbrev pub ordered : List A → Bool
  ordered [] = true
  ordered (x ∷ xs) = all (before x) xs && ordered xs

  pub ordered-select :
      (p : A → Bool) (xs : List A) → ordered xs ≡ true → ordered (select p xs) ≡ true
  ordered-select p [] h = refl
  ordered-select p (x ∷ xs) h = ground (arith, all-select x p xs, ordered-select p xs)
    where
      all-select :
          (y : A) (q : A → Bool) (ys : List A)
          → all (before y) ys ≡ true
          → all (before y) (select q ys) ≡ true
      all-select y q [] k = refl
      all-select y q (z ∷ ys) k = ground (arith, all-select y q ys)

  insert_first : (x : A) (xs : List A) → all (before x) xs ≡ true → insert before x xs ≡ x ∷ xs
  unfolding insert
  insert_first x [] h = refl
  insert_first x (y ∷ ys) h = ground arith

  -- A list in order is left as it is.
  pub sort-ordered : (xs : List A) → ordered xs ≡ true → sort before xs ≡ xs
  unfolding sort
  sort-ordered [] h = refl
  sort-ordered (x ∷ xs) h =
      ap (insert before x) (sort-ordered xs (ground arith)) ∙ insert_first x xs (ground arith)

  module _ (total : (x y : A) → before x y ≡ false → before y x ≡ true)
      (trans : (x y z : A) → before x y ≡ true → before y z ≡ true → before x z ≡ true) where
    all-insert :
        (p : A → Bool) (x : A) (xs : List A) → all p (insert before x xs) ≡ (p x && all p xs)
    unfolding insert
    all-insert p x [] = refl
    all-insert p x (y ∷ ys) = ground (arith, all-insert p x ys)

    all_trans :
        (x y : A) (xs : List A)
        → before x y ≡ true
        → all (before y) xs ≡ true
        → all (before x) xs ≡ true
    all_trans x y [] h k = refl
    all_trans x y (z ∷ zs) h k = ground (arith, all_trans x y zs, trans x y z)

    ordered-insert : (x : A) (xs : List A) → ordered xs ≡ true → ordered (insert before x xs) ≡ true
    unfolding insert
    ordered-insert x [] h = refl
    ordered-insert x (y ∷ ys) h = elim (Bool-cases (before x y)) [
      | inl e ↦ rw e (ground (arith, all_trans x y ys e))
      | inr e ↦ rw e (ground (arith, all-insert (before y) x ys, ordered-insert x ys, total x y e))
    ]

    pub ordered-sort : (xs : List A) → ordered (sort before xs) ≡ true
    unfolding sort
    ordered-sort [] = refl
    ordered-sort (x ∷ xs) = ordered-insert x (sort before xs) (ordered-sort xs)

-- Equal texts at every index.
pub same_texts_lem : (r q : List String) → same_texts r q ≡ true → r ≡ q
same_texts_lem [] [] h = refl
same_texts_lem (s ∷ ss) (t ∷ ts) h =
    let e1 = (eq_iff s t).0 (ground arith) in let e2 = same_texts_lem ss ts (ground arith) in cc
same_texts_lem _ _ h = cc

same_texts_refl : (xs : List String) → same_texts xs xs ≡ true
same_texts_refl [] = refl
same_texts_refl (x ∷ xs) = rw ((eq_iff x x).1 refl, same_texts_refl xs) refl

pub units_le_total : (xs ys : List ℕ) → units_le xs ys ≡ false → units_le ys xs ≡ true
units_le_total [] ys h = cc
units_le_total (x ∷ xs) [] h = refl
units_le_total (x ∷ xs) (y ∷ ys) h = ground (arith, units_le_total xs ys)

pub units_le_trans :
    (xs ys zs : List ℕ) → units_le xs ys ≡ true → units_le ys zs ≡ true → units_le xs zs ≡ true
units_le_trans [] ys zs h k = refl
units_le_trans (x ∷ xs) [] zs h k = cc
units_le_trans (x ∷ xs) (y ∷ ys) [] h k = cc
units_le_trans (x ∷ xs) (y ∷ ys) (z ∷ zs) h k = ground (arith, units_le_trans xs ys zs)

-- What the schemas call sorted is in order, and what is in order is sorted.
pub is_sorted-ordered : (xs : List String) → is_sorted xs ≡ true → ordered string_le xs ≡ true
unfolding is_sorted sort_strings string_le
is_sorted-ordered xs h =
    subst (λ ys. ordered string_le ys ≡ true) (sym (same_texts_lem xs (sort_strings xs) h))
      (ordered-sort string_le (λ x y. units_le_total (utf16 x) (utf16 y))
        (λ x y z. units_le_trans (utf16 x) (utf16 y) (utf16 z)) xs)

pub ordered-is_sorted : (xs : List String) → ordered string_le xs ≡ true → is_sorted xs ≡ true
unfolding is_sorted sort_strings
ordered-is_sorted xs h = rw (sort-ordered string_le xs h) (same_texts_refl xs)

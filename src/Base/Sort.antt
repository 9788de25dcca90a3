-- ===== src/Base/Sort.antt =====
-- `Array.prototype.sort`, which is stable, over an order given as a Boolean test; the default order
-- of strings, by UTF-16 code units; and the checks that the schemas make by sorting a copy.
use Prim.Native.Nat.{ℕ, ◌+◌, ◌-◌, ◌/◌, ◌%◌}
use Prim.Native.Char.{code}
use Prim.Native.String
use Prim.Native.String.{String}
use mathlib.Core.Bool.{Bool, true, false, not, ◌&&◌, ◌||◌}
use mathlib.Core.List.{List, [], ◌∷◌, ◌++◌}
use lineageguard.Base.Tests.{ltb, ◌==◌, ◌===◌, if◌then◌else◌}
use lineageguard.Base.Lists.{contains}

module _ {ℓ} {A : Type ℓ} (before : A → A → Bool) where
  -- Behind the items that are not after it, so that equal items keep their order.
  unfoldable pub insert : A → List A → List A
  insert x [] = x ∷ []
  insert x (y ∷ ys) = if before x y then x ∷ y ∷ ys else y ∷ insert x ys

  unfoldable pub sort : List A → List A
  unfolding insert
  sort [] = []
  sort (x ∷ xs) = insert x (sort xs)

-- The UTF-16 code units of a code point.
abbrev pub units : ℕ → List ℕ
units c =
    if ltb c 0x10000
    then c ∷ []
    else (0xD800 + (c - 0x10000) / 0x400) ∷ (0xDC00 + (c - 0x10000) % 0x400) ∷ []

abbrev pub utf16 : String → List ℕ
utf16 String.[] = []
utf16 (String.◌∷◌ c s) = units (code c) ++ utf16 s

abbrev pub units_le : List ℕ → List ℕ → Bool
units_le [] ys = true
units_le (x ∷ xs) [] = false
units_le (x ∷ xs) (y ∷ ys) = ltb x y || (x == y && units_le xs ys)

-- The default order of strings.
unfoldable pub string_le : String → String → Bool
string_le s t = units_le (utf16 s) (utf16 t)

unfoldable pub sort_strings : List String → List String
unfolding sort string_le
sort_strings = sort string_le

-- Every index holds the same text, up to the length of the first list.
abbrev pub same_texts : List String → List String → Bool
same_texts [] [] = true
same_texts [] (y ∷ ys) = false
same_texts (x ∷ xs) [] = false
same_texts (x ∷ xs) (y ∷ ys) = x === y && same_texts xs ys

-- `xs.some((x, index) => x !== sorted[index])`, denied.
unfoldable pub is_sorted : List String → Bool
unfolding sort_strings
is_sorted xs = same_texts xs (sort_strings xs)

-- `new Set(xs).size === xs.length`.
abbrev pub is_distinct : List String → Bool
is_distinct [] = true
is_distinct (x ∷ xs) = not (contains xs x) && is_distinct xs

-- `[...new Set(xs)]`: the first of equal texts stays.
abbrev pub unique_from : List String → List String → List String
unique_from seen [] = []
unique_from seen (x ∷ xs) =
    let fresh = x ∷ unique_from (x ∷ seen) xs in
    let known = unique_from seen xs in if contains seen x then known else fresh

unfoldable pub unique : List String → List String
unique xs = unique_from [] xs

-- The concatenation of texts.
abbrev pub concat_texts : List String → String
concat_texts [] = ""
concat_texts (s ∷ ss) = String.◌++◌ s (concat_texts ss)

-- ===== src/Hash.antt =====
-- packages/domain/src/hash.ts: JSON values with their keys in one order, and hashes of them.
-- `JSON.stringify`, `createHash("sha256")` and `localeCompare` belong to the platform and are the
-- fields of `Platform`. A hash is its lowercase hexadecimal text.
use Prim.Native.Nat.{ℕ, zero, suc}
use lineageguard.Base.{String, Bool, List, [], ◌∷◌, Option, none, some, if◌then◌else◌}
use lineageguard.Base.Sort.{concat_texts}

mutual
  pub data Json : Type 0 where
    null : Json
    bool : Bool → Json
    num : ℕ → Json
    str : String → Json
    arr : Items → Json
    obj : Fields → Json

  pub data Items : Type 0 where
    nil : Items
    cons : Json → Items → Items

  pub data Fields : Type 0 where
    end : Fields
    field : String → Json → Fields → Fields

pub record Platform : Type 0 where
  pub stringify : Json → String
  pub sha256_hex : String → String
  -- `left.localeCompare(right) <= 0`
  pub locale_le : String → String → Bool

abbrev pub items : List Json → Items
items [] = nil
items (v ∷ vs) = cons v (items vs)

abbrev pub texts : List String → Items
texts [] = nil
texts (s ∷ ss) = cons (str s) (texts ss)

-- The key is left out where the value is `undefined`.
abbrev pub optional : String → Option Json → Fields → Fields
optional key none fs = fs
optional key (some v) fs = field key v fs

abbrev pub take_chars : ℕ → String → String
take_chars zero s = ""
take_chars (suc n) String.[] = ""
take_chars (suc n) (String.◌∷◌ c s) = String.◌∷◌ c (take_chars n s)

module _ (platform : Platform) where
  open platform use {stringify, sha256_hex, locale_le}

  -- One step of the stable sort of the entries by `localeCompare` of their keys.
  unfoldable pub insert_field : String → Json → Fields → Fields
  insert_field key v end = field key v end
  insert_field key v (field k w fs) =
      if locale_le key k then field key v (field k w fs) else field k w (insert_field key v fs)

  unfoldable mutual
    unfolding insert_field

    pub canonicalize : Json → Json
    canonicalize null = null
    canonicalize (bool b) = bool b
    canonicalize (num n) = num n
    canonicalize (str s) = str s
    canonicalize (arr vs) = arr (canonicalize_items vs)
    canonicalize (obj fs) = obj (canonicalize_fields fs)

    pub canonicalize_items : Items → Items
    canonicalize_items nil = nil
    canonicalize_items (cons v vs) = cons (canonicalize v) (canonicalize_items vs)

    pub canonicalize_fields : Fields → Fields
    canonicalize_fields end = end
    canonicalize_fields (field k v fs) = insert_field k (canonicalize v) (canonicalize_fields fs)

  unfoldable pub stable_json : Json → String
  unfolding canonicalize
  stable_json value = stringify (canonicalize value)

  -- A text is hashed as it stands.
  unfoldable pub sha256 : Json → String
  unfolding stable_json
  sha256 (str s) = sha256_hex s
  sha256 value = sha256_hex (stable_json value)

  unfoldable pub stable_id : String → Json → String
  unfolding sha256
  stable_id prefix value = concat_texts (prefix ∷ "_" ∷ take_chars 24 (sha256 value) ∷ [])

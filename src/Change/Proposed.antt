-- ===== src/Change/Proposed.antt =====
-- packages/domain/src/change.ts: the record of a proposed change and its schema. The dataset, the
-- operation, the fields before and after are literals; there is exactly one file.
use Prim.Native.Char.{code}
use lineageguard.Base.{
  ℕ, String, Bool, true, false, not, ◌&&◌, ◌||◌, List, [], ◌∷◌, ◌++◌, leb, ◌==◌, ◌===◌, all,
  if◌then◌else◌,
}
use lineageguard.Base.Text.{has_length, js_length, tagged_hex}
use lineageguard.Hash.{Json, str, arr, obj, end, field, texts, Platform, sha256, stable_id}

-- `[A-Za-z0-9_.-]`.
is_name_char : ℕ → Bool
is_name_char c =
    (leb b'A' c && leb c b'Z')
    || (leb b'a' c && leb c b'z')
    || (leb b'0' c && leb c b'9')
    || c == b'_'
    || c == b'.'
    || c == b'-'

abbrev all_chars : (ℕ → Bool) → String → Bool
all_chars test String.[] = true
all_chars test (String.◌∷◌ c s) = test (code c) && all_chars test s

abbrev is_empty : String → Bool
is_empty String.[] = true
is_empty (String.◌∷◌ c s) = false

-- `s.split(separator)` at a single character, over the code points.
abbrev split_from : ℕ → List ℕ → String → List (List ℕ)
split_from separator current String.[] = current ∷ []
split_from separator current (String.◌∷◌ c s) =
    let cut = current ∷ split_from separator [] s in
    let go = split_from separator (current ++ code c ∷ []) s in
    if code c == separator then cut else go

abbrev same_codes : List ℕ → List ℕ → Bool
same_codes [] [] = true
same_codes [] (y ∷ ys) = false
same_codes (x ∷ xs) [] = false
same_codes (x ∷ xs) (y ∷ ys) = x == y && same_codes xs ys

-- Two non-empty runs of name characters with one slash between.
abbrev is_name : List ℕ → Bool
unfolding is_name_char
is_name [] = false
is_name (c ∷ cs) = all is_name_char (c ∷ cs)

abbrev owner_and_name : List (List ℕ) → Bool
owner_and_name (owner ∷ name ∷ []) = is_name owner && is_name name
owner_and_name _ = false

unfoldable pub is_repository : String → Bool
unfolding has_length is_name_char
is_repository s = has_length 3 200 s && owner_and_name (split_from b'/' [] s)

-- A full Git object ID.
unfoldable pub is_sha : String → Bool
unfolding tagged_hex
is_sha s = tagged_hex "" 40 s || tagged_hex "" 64 s

abbrev starts_with_slash : String → Bool
starts_with_slash String.[] = false
starts_with_slash (String.◌∷◌ c s) = code c == b'/'

abbrev is_plain_segment : List ℕ → Bool
is_plain_segment segment =
    not (same_codes segment [])
    && not (same_codes segment (b'.' ∷ []))
    && not (same_codes segment (b'.' ∷ b'.' ∷ []))

-- `safeRepositoryPathSchema`.
unfoldable pub is_safe_path : String → Bool
unfolding has_length
is_safe_path s =
    has_length 1 240 s
    && not (starts_with_slash s)
    && all_chars (λ c. not (c == b'\\')) s
    && all is_plain_segment (split_from b'/' [] s)

pub data Source : Type 0 where
  github fixture : Source

pub record Identity : Type 0 where
  pub source : Source
  pub repository : String
  pub base_sha : String
  pub head_sha : String
  pub file : String
  pub source_patch_fingerprint : String

pub record ProposedChange : Type 0 where
  pub id : String
  pub fingerprint : String
  pub identity : Identity
  pub open identity use *

abbrev source_name : Source → String
source_name github = "GITHUB"
source_name fixture = "FIXTURE"

-- The identity that is hashed, `identity` of `proposedChangeSchema` and `buildProposedChange`.
unfoldable pub identity_json : Identity → Json
identity_json c = obj (
    field "source" (str (source_name c.source)) (
      field "repository" (str c.repository) (
        field "baseSha" (str c.base_sha) (
          field "headSha" (str c.head_sha) (
            field "datasetRef" dataset (
              field "operation" (str "RENAME_FIELD") (
                field "field" (str "customer_id") (
                  field "before" (obj (field "field" (str "customer_id") end)) (
                    field "after" (obj (field "field" (str "buyer_id") end)) (
                      field "files" (arr (texts (c.file ∷ []))) (
                        field "sourcePatchFingerprint" (str c.source_patch_fingerprint)
                          end)))))))))))
  where
    dataset : Json
    dataset = obj (
        field "platform" (str "postgres") (
          field "environment" (str "PROD")
            (field "schema" (str "commerce") (field "dataset" (str "orders") end))))

module _ (platform : Platform) where
  -- `proposedChangeSchema`.
  unfoldable pub is_proposed_change : ProposedChange → Bool
  unfolding tagged_hex is_repository is_sha is_safe_path js_length
  is_proposed_change c =
      tagged_hex "chg_" 24 c.id
      && tagged_hex "" 64 c.fingerprint
      && tagged_hex "" 64 c.source_patch_fingerprint
      && is_repository c.repository
      && is_sha c.base_sha
      && is_sha c.head_sha
      && is_safe_path c.file
      && not (c.base_sha === c.head_sha)
      && js_length c.base_sha == js_length c.head_sha
      && c.fingerprint === sha256 platform (identity_json c.identity)
      && c.id === stable_id platform "chg" (identity_json c.identity)

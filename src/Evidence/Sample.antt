-- ===== src/Evidence/Sample.antt =====
-- packages/domain/src/evidence.ts: the canonical fixture on a concrete platform.
use Prim.Native.Nat.{ℕ, ◌+◌, ◌-◌, ◌*◌}
use Prim.Native.Char.{code}
use Prim.Native.String
use lineageguard.Base.{
  arith, String, true, ◌&&◌, ◌≡◌, refl, List, [], ◌∷◌, leb, ◌===◌, all, if◌then◌else◌,
}
use lineageguard.Base.Text.{has_length}
use lineageguard.Base.Sort.{string_le}
use lineageguard.Hash.{
  Json, null, bool, num, str, arr, obj, Fields, end, field, Platform, stable_id,
}
use lineageguard.Run.Events.{IsoTime}
use lineageguard.Evidence.Items.{ImpactContext}
use lineageguard.Evidence.Fixture.{canonical_fixture}
use lineageguard.Evidence.Context.{context_identity, context_history, evidence_order, failure_order}
use lineageguard.Evidence.Bindings.{item_binding}
use lineageguard.Evidence.Complete.{status_fits}
use lineageguard.Evidence.Shapes.{context_shape}
use lineageguard.Evidence.Identity.{
  is_identified, normalized_evidence_identity, impact_context_semantic_identity,
}
use lineageguard.Evidence.Schema.{is_impact_context}

-- The text at the key `summary` of an object, which tells the fixture's items apart.
unfoldable summary_text : Fields → String
summary_text end = ""
summary_text (field k (str s) fs) =
    let rest = summary_text fs in if k === "summary" then s else rest
summary_text (field k null fs) = summary_text fs
summary_text (field k (bool _) fs) = summary_text fs
summary_text (field k (num _) fs) = summary_text fs
summary_text (field k (arr _) fs) = summary_text fs
summary_text (field k (obj _) fs) = summary_text fs

unfoldable summary : Json → String
unfolding summary_text
summary null = ""
summary (bool b) = ""
summary (num n) = ""
summary (str s) = ""
summary (arr vs) = ""
summary (obj fs) = summary_text fs

-- A table in place of SHA-256, of the items' summaries, with one hash for every other text.
abbrev hash_table : List (String × String)
hash_table =
    ("The source field is a non-null uuid in PostgreSQL.", "0")
    ∷ ("customer_id flows through the revenue datasets into the Finance dashboard.", "1")
    ∷ ("A critical Finance dashboard consumes the revenue lineage path.", "2")
    ∷ ("customer_id flows through the fraud feature set into the production model.", "3")
    ∷ ("The production fraud model consumes customer_features.customer_id.", "4")
    ∷ (
      "A cataloged PostgreSQL query subject references analytics.customer_revenue.customer_id.",
      "5",
    )
    ∷ ("Finance Analytics owns the revenue dashboard.", "6")
    ∷ ("Risk ML owns Fraud Model v3.", "7")
    ∷ ("customer_id is governed by the Customer Identifier glossary term.", "8")
    ∷ []

unfoldable first_digit : List (String × String) → String → String
first_digit [] s = "9"
first_digit ((t, digit) ∷ table) s =
    let rest = first_digit table s in if s === t then digit else rest

-- With the order of code units for `localeCompare`.
unfoldable pub small_platform : Platform
unfolding summary first_digit string_le
small_platform = record {
  stringify = summary;
  sha256_hex = λ s.
      String.◌++◌ (first_digit hash_table s)
        "000000000000000000000000000000000000000000000000000000000000000";
  locale_le = string_le;
}

-- The digits of a timestamp, which order the timestamps of one format and zone.
unfoldable digits : ℕ → String → ℕ
digits acc String.[] = acc
digits acc (String.◌∷◌ c s) =
    let next = if leb b'0' (code c) && leb (code c) b'9' then acc * 10 + (code c - b'0') else acc in
    digits next s

unfoldable pub utc : IsoTime
unfolding has_length digits
utc = record { is_datetime = has_length 24 24; is_date = has_length 24 24; millis = digits 0 }

abbrev pub change_id : String
change_id = "chg_900000000000000000000000"

unfoldable pub fixture : ImpactContext
unfolding canonical_fixture
fixture = canonical_fixture small_platform change_id

fixture-history : context_history utc fixture ≡ true
unfolding context_history utc fixture small_platform stable_id normalized_evidence_identity
    impact_context_semantic_identity
fixture-history = refl

fixture-order : evidence_order fixture.evidence ≡ true
unfolding evidence_order fixture small_platform stable_id normalized_evidence_identity
fixture-order = refl

fixture-bindings : all (item_binding fixture) fixture.evidence ≡ true
unfolding item_binding fixture small_platform stable_id normalized_evidence_identity
fixture-bindings = refl

fixture_complete : status_fits fixture.collection_status fixture ≡ true
unfolding status_fits fixture small_platform stable_id normalized_evidence_identity
fixture_complete = refl

fixture-identity : context_identity small_platform fixture ≡ true
unfolding context_identity fixture small_platform impact_context_semantic_identity
fixture-identity = refl

fixture-identified : all (is_identified small_platform) fixture.evidence ≡ true
unfolding is_identified fixture small_platform stable_id normalized_evidence_identity
fixture-identified = refl

fixture-failures : failure_order fixture.failures ≡ true
unfolding failure_order fixture
fixture-failures = refl

fixture-shape : context_shape utc fixture ≡ true
unfolding context_shape utc fixture small_platform stable_id normalized_evidence_identity
    impact_context_semantic_identity
fixture-shape = refl

pub fixture-accepted : is_impact_context small_platform utc fixture ≡ true
unfolding is_impact_context
fixture-accepted = ground (
  arith, fixture-shape, fixture-identified, fixture-identity, fixture-history, fixture-order,
  fixture-failures, fixture-bindings, fixture_complete,
)

-- ===== src/Store/Sample.antt =====
-- packages/db/src/store.ts: a run from its creation to its completion in the store.
use lineageguard.Base.{
  ℕ, ◌≡◌, refl, String, Bool, true, false, none, some, List, [], ◌∷◌, ◌++◌, ◌==◌, ◌===◌,
  if◌then◌else◌, all, ==_iff, and-eq-true_iff,
}
use lineageguard.Base.Results.{Outcome, returns, throws, ensure, ◌>>=◌, through, returns-injective}
use lineageguard.Run.Sample.{ticks, read, digits}
use lineageguard.Run.Status.{
  RunStatus, created, change_parsed, baseline_assessed, context_collecting, context_collected,
  risk_decided, migration_planned, patch_generated, validating, validated, review_artifact_created,
  writeback_pending, completed,
}
use lineageguard.Run.Events.{RunEvent, status_changed}
use lineageguard.Store.Rows.{
  Host, live, state_conflict, RunRow, baseline_decisions, evidence_bundles, migration_candidates,
  EffectKind, github_review, datahub_writeback, IntentRow, Database, StoreError, LeaseGuard,
}
use lineageguard.Store.Transition.{has_prerequisites}
use lineageguard.Store.Claims.{stamp}
use lineageguard.Store.History.{
  Command, create, claim, release, move, append, collect, decide, sign, intend, renew, retry,
  Timely, execute, History, founded, committed, elsewhere,
}
use mathlib.Core.List.{Memᴰ}
use mathlib.Core.Path.{ap, subst₂}
use lineageguard.Store.Leases.{new_row}

abbrev pub text_of : ℕ → String
text_of n = if n == 100 then "100" else if n == 110 then "110" else "9000"

unfoldable pub desk : Host
unfolding read digits
desk = record {
  iso = ticks;
  to_iso = text_of;
  last_date = 100_000;
  json_bytes = λ _. 200;
  parse_payload = λ s. some s;
  payload_bytes = λ _. 2;
  is_object = λ _. true;
  column_size = λ _. 2;
  is_live_pass = λ s. s === "PASS";
}

abbrev pub run_id : String
run_id = "run_0123456789abcdef01234567"

abbrev pub lease_id : String
lease_id = "lease_00000000000000000000000a"

abbrev pub fingerprint : String
fingerprint = "0123456789abcdef0123456789abcdef0123456789abcdef0123456789abcdef"

abbrev pub nothing : Database
nothing = record {
  runs = [];
  run_events = [];
  run_leases = [];
  retry_attempts = [];
  effect_reservations = [];
  effect_receipts = [];
  reconciliations = [];
  run_records = [];
  validation_receipts = [];
  effect_intents = [];
}

-- What the code asserts before it calls `transition_run`, as far as the stored rows go.
unfoldable pub asserted : Database → RunStatus → Outcome StoreError (Unit {0})
unfolding has_prerequisites
asserted db target = ensure (has_prerequisites desk db run_id target) state_conflict

abbrev pub guard_at : ℕ → LeaseGuard
guard_at version = record {
  lease_id = lease_id;
  worker_id = "worker-1";
  generation = 1;
  fencing_version = version;
}

unfoldable pub step : String → (sequence version : ℕ) → RunStatus → RunStatus → Command
unfolding asserted
step event n version from to =
    move asserted (status_changed (stamp event run_id n "" lease_id "worker-1" 1) from to none)
      version 110 110 110 110

abbrev pub validation_id : String
validation_id = "val_0123456789abcdef01234567"

abbrev pub intent : String → EffectKind → IntentRow
intent id kind = record {
  id = id;
  run_id = run_id;
  kind = kind;
  target = "target";
  idempotency_key = id;
  input_fingerprint = fingerprint;
  input = "{}";
  validation_receipt_id = validation_id;
  candidate_fingerprint = fingerprint;
  artifact_set_fingerprint = fingerprint;
}

-- A command, or a receipt of an effect, which another transaction stores.
pub data Act : Type 0 where
  act : Command → Act
  receive : (intent_id : String) → Act

abbrev pub opening_acts : List Act
opening_acts =
    act (create run_id "key" fingerprint live "{}" 50 100)
    ∷ act (
        claim (λ _. false) "evt_0000000000000000000000ff" "evt_000000000000000000000000" lease_id
          "worker-1" 8_900 100 100 100)
    ∷ []

abbrev pub first_half : List Act
first_half =
    act (step "evt_000000000000000000000001" 1 1 created change_parsed)
    ∷ act (step "evt_000000000000000000000002" 2 2 change_parsed baseline_assessed)
    ∷ act (decide (λ s. some s) baseline_decisions "decision_0" run_id (guard_at 3) "{}" 110)
    ∷ act (step "evt_000000000000000000000003" 3 4 baseline_assessed context_collecting)
    ∷ act (
        append (λ s. some s) 1_048_576 evidence_bundles "bundle_0" run_id (guard_at 5) "{}" 110 110)
    ∷ act (collect (λ s. some s) (λ _. live) "bundle_1" run_id (guard_at 6) "{}" 110 110)
    ∷ act (step "evt_000000000000000000000004" 4 7 context_collecting context_collected)
    ∷ act (step "evt_000000000000000000000005" 5 8 context_collected risk_decided)
    ∷ act (step "evt_000000000000000000000006" 6 9 risk_decided migration_planned)
    ∷ act (
        append (λ s. some s) 2_097_152 migration_candidates "migration_0" run_id (guard_at 10) "{}"
          110 110)
    ∷ []

abbrev pub second_half : List Act
second_half =
    act (step "evt_000000000000000000000007" 7 11 migration_planned patch_generated)
    ∷ act (step "evt_000000000000000000000008" 8 12 patch_generated validating)
    ∷ act (sign (λ _ _. true) validation_id run_id "PASS" (guard_at 13) 110 110)
    ∷ act (step "evt_000000000000000000000009" 9 14 validating validated)
    ∷ act (intend (λ _ _. true) (intent "effect_0" github_review) (guard_at 15) 110 110)
    ∷ receive "effect_0"
    ∷ act (step "evt_00000000000000000000000a" 10 16 validated review_artifact_created)
    ∷ act (step "evt_00000000000000000000000b" 11 17 review_artifact_created writeback_pending)
    ∷ act (intend (λ _ _. true) (intent "effect_1" datahub_writeback) (guard_at 18) 110 110)
    ∷ receive "effect_1"
    ∷ act (step "evt_00000000000000000000000c" 12 19 writeback_pending completed)
    ∷ []

abbrev pub received : Database → String → Database
received db intent_id = record db {
  effect_receipts =
      db.effect_receipts
      ++ record {
        intent_id = intent_id;
        validation_receipt_id = validation_id;
        candidate_fingerprint = fingerprint;
        artifact_set_fingerprint = fingerprint;
      }
        ∷ [];
}

-- The history that a list of acts makes, each of them on the database before it.
unfoldable pub play :
    Host → Database → List Database → List Act → Outcome StoreError (Database × List Database)
unfolding execute
play host db past [] = returns (db, past)
play host db past (act c ∷ cs) = do after ← execute host db db c; play host after (db ∷ past) cs
play host db past (receive intent_id ∷ cs) = play host (received db intent_id) (db ∷ past) cs

-- The clock reading of a command survives its timestamp.
abbrev pub is_timely : Act → Bool
is_timely (act (claim _ _ _ _ _ _ _ now _)) = desk.iso.millis (desk.to_iso now) == now
is_timely (act (renew _ _ _ _ _ now _)) = desk.iso.millis (desk.to_iso now) == now
is_timely (act (release _ _ _ _ now _)) = desk.iso.millis (desk.to_iso now) == now
is_timely (act (retry _ _ _ _ now _)) = desk.iso.millis (desk.to_iso now) == now
is_timely (act (move _ _ _ _ _ _ now)) = desk.iso.millis (desk.to_iso now) == now
is_timely _ = true

act-Timely : (c : Command) → is_timely (act c) ≡ true → Timely desk c
act-Timely (create _ _ _ _ _ _ _) h = tt
act-Timely (claim _ _ _ _ _ _ _ now _) h = (==_iff _ _).0 h
act-Timely (renew _ _ _ _ _ now _) h = (==_iff _ _).0 h
act-Timely (release _ _ _ _ now _) h = (==_iff _ _).0 h
act-Timely (retry _ _ _ _ now _) h = (==_iff _ _).0 h
act-Timely (move _ _ _ _ _ _ now) h = (==_iff _ _).0 h
act-Timely (append _ _ _ _ _ _ _ _ _) h = tt
act-Timely (collect _ _ _ _ _ _ _ _) h = tt
act-Timely (decide _ _ _ _ _ _ _) h = tt
act-Timely (sign _ _ _ _ _ _ _) h = tt
act-Timely (intend _ _ _ _ _) h = tt

play-History :
    (db after : Database) (past before : List Database) (cs : List Act)
    → History desk (db ∷ past)
    → all is_timely cs ≡ true
    → play desk db past cs ≡ returns (after, before)
    → History desk (after ∷ before)
unfolding play
play-History db after past before [] h t p =
    let both = returns-injective p in
    subst₂ (λ d ds. History desk (d ∷ ds)) (ap (λ x. x.0) both) (ap (λ x. x.1) both) h
play-History db after past before (act c ∷ cs) h t p =
    let (next, e, rest) = through (execute desk db db c) p in
    play-History next after (db ∷ past) before cs
      (committed c db next db past h (Memᴰ.head refl) (act-Timely c ((and-eq-true_iff _ _).0 t).0)
        e)
      ((and-eq-true_iff _ _).0 t).1 rest
play-History db after past before (receive intent_id ∷ cs) h t p =
    play-History (received db intent_id) after (db ∷ past) before cs
      (elsewhere (received db intent_id) db past h refl refl)
      ((and-eq-true_iff (is_timely (receive intent_id)) (all is_timely cs)).0 t).1 p

abbrev pub story : Outcome StoreError (Database × List Database)
unfolding play
story = play desk nothing [] (opening_acts ++ first_half ++ second_half)

abbrev pub at_end : Outcome StoreError (Database × List Database) → Database × List Database
at_end (returns x) = x
at_end (throws e) = (nothing, [])

unfoldable pub last_state : Database
unfolding story step desk lineageguard.Run.Events.event_shape lineageguard.Run.Stream.is_stream
    lineageguard.Run.Stream.stream_issues lineageguard.Run.Stream.event_issues
    lineageguard.Run.Stream.start lineageguard.Run.Status.is_adjacent
    lineageguard.Run.Stream.advance
last_state = (at_end story).0

abbrev pub past_states : List Database
unfolding story
past_states = (at_end story).1

told : story ≡ returns (last_state, past_states)
unfolding last_state story step desk lineageguard.Run.Events.event_shape
    lineageguard.Run.Stream.is_stream lineageguard.Run.Stream.stream_issues
    lineageguard.Run.Stream.event_issues lineageguard.Run.Stream.start
    lineageguard.Run.Status.is_adjacent lineageguard.Run.Stream.advance
told = refl

pub whole : History desk (last_state ∷ past_states)
unfolding last_state story step desk read digits
whole =
    play-History nothing last_state [] past_states (opening_acts ++ first_half ++ second_half)
      (founded nothing refl refl) refl told

abbrev pub run_at : Database → RunRow
run_at db = elim db.runs [ [] ↦ new_row desk run_id "" "" live "" 0 0 | r ∷ rs ↦ r ]

-- The first two commands: a created run, and the same run under its first lease.
unfoldable pub opening : Outcome StoreError (Database × List Database)
unfolding play
opening = play desk nothing [] (opening_acts ++ [])

unfoldable pub leased_state : Database
unfolding opening desk lineageguard.Run.Events.event_shape lineageguard.Run.Stream.is_stream
    lineageguard.Run.Stream.stream_issues lineageguard.Run.Stream.event_issues
    lineageguard.Run.Stream.start lineageguard.Run.Status.is_adjacent
    lineageguard.Run.Stream.advance
leased_state = (at_end opening).0

unfoldable pub before_lease : List Database
unfolding opening
before_lease = (at_end opening).1

begun : opening ≡ returns (leased_state, before_lease)
unfolding leased_state before_lease opening desk lineageguard.Run.Events.event_shape
    lineageguard.Run.Stream.is_stream lineageguard.Run.Stream.stream_issues
    lineageguard.Run.Stream.event_issues lineageguard.Run.Stream.start
    lineageguard.Run.Status.is_adjacent lineageguard.Run.Stream.advance
begun = refl

pub leased : History desk (leased_state ∷ before_lease)
unfolding leased_state before_lease opening desk read digits
leased =
    play-History nothing leased_state [] before_lease (opening_acts ++ [])
      (founded nothing refl refl) refl begun

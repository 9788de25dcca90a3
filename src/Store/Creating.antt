-- ===== src/Store/Creating.antt =====
-- packages/db/src/store.ts: `createRun` keeps the invariant.
use lineageguard.Base.{
  ℕ, ◌≡◌, refl, sym, ap, String, true, false, not, ◌&&◌, leb, Option, none, some, List, [], ◌∷◌,
  ◌++◌, ◌===◌, all, All, arith, eq_iff, Bool-cases, inl, inr, any-append,
}
use lineageguard.Base.Results.{Outcome, returns, throws, through, passed, returns-injective}
use lineageguard.Base.Text.{is_between}
use mathlib.Core.Path.{subst}
use mathlib.Core.List.{append-nil}
use lineageguard.Run.Stream.{start, replay}
use lineageguard.Store.Rows.{
  Host, ExecutionMode, RunRow, EventRow, Database, StoreError, unique_violation, check_violation,
  idempotency_conflict, has_run,
}
use lineageguard.Store.Leases.{
  caught, require_run_id, require_fingerprint, canonical_payload, new_row, find_request,
  run_from_row, insert_run, same_request, create_run,
}
use lineageguard.Store.Agree.{kept, Agrees}
use lineageguard.Store.Sound.{untouched, inserted, Preserves, Extends-refl, IsSound}

caught-returns {ℓ} :
    {A : Type ℓ} (o : Outcome StoreError A) (a : A) → caught o ≡ returns a → o ≡ returns a
caught-returns (returns b) a h = let same = returns-injective h in rw same refl
caught-returns (throws e) a h = cc

no_events :
    (events : List EventRow) (runs : List RunRow) (id : String)
    → all (λ e. has_run runs e.run_id) events ≡ true
    → has_run runs id ≡ false
    → kept events id ≡ []
no_events [] runs id h k = refl
no_events (e ∷ es) runs id h k = elim (Bool-cases (e.run_id === id)) [
  | inl q ↦
      let same = (eq_iff e.run_id id).0 q in
      let found : has_run runs e.run_id ≡ true = ground arith in
      absurd (ground (arith, ap (has_run runs) same))
  | inr q ↦ ground (arith, no_events es runs id)
]

owned-more :
    (events : List EventRow) (runs : List RunRow) (row : RunRow)
    → all (λ e. has_run runs e.run_id) events ≡ true
    → all (λ e. has_run (runs ++ row ∷ []) e.run_id) events ≡ true
owned-more [] runs row h = refl
owned-more (e ∷ es) runs row h =
    ground (arith, any-append (λ r. r.id === e.run_id) runs (row ∷ []), owned-more es runs row)

All-snoc {ℓ κ} :
    {A : Type ℓ} (P : A → Type κ) (xs : List A) (x : A) → All P xs → P x → All P (xs ++ x ∷ [])
All-snoc P [] x h k = (k, tt)
All-snoc P (y ∷ ys) x (h, hs) k = (h, All-snoc P ys x hs k)

IsSound-new :
    (host : Host) (runs : List RunRow) (events : List EventRow) (id key fingerprint : String)
    (mode : ExecutionMode) (payload : String) (next at : ℕ)
    → IsSound host runs events
    → has_run runs id ≡ false
    → IsSound host (runs ++ new_row host id key fingerprint mode payload next at ∷ []) events
unfolding start replay
IsSound-new host runs events id key fingerprint mode payload next at sound fresh =
    let row = new_row host id key fingerprint mode payload next at in
    record {
      agree =
          All-snoc (λ r. Agrees host r (kept events r.id)) runs row sound.agree
            (subst (Agrees host row) (sym (no_events events runs id sound.owned fresh)) (record {
              faithful = tt;
              accepted = refl;
              mirrors = record { same_status = refl; same_lease = refl; same_generation = refl };
            }));
      owned = owned-more events runs row sound.owned;
    }

insert_run-Preserves :
    (host : Host) (db after : Database) (id key fingerprint : String) (mode : ExecutionMode)
    (payload : String) (next at : ℕ) (found : Option RunRow) (result : RunRow)
    → IsSound host db.runs db.run_events
    → insert_run host db (new_row host id key fingerprint mode payload next at) found
      ≡ returns (after, result)
    → Preserves host db after
unfolding insert_run
insert_run-Preserves host db after id key fingerprint mode payload next at none result sound h =
    let row = new_row host id key fingerprint mode payload next at in
    let (_, h0) = passed (is_between 1 512 key) check_violation h in
    let (_, h1) =
      passed (host.is_object payload && leb (host.column_size payload) 1_048_576) check_violation
        h0 in
    let (fresh, h2) = passed (not (has_run db.runs id)) unique_violation h1 in
    let (parsed, _, h3) = through (run_from_row host row) h2 in
    let same : record db { runs = db.runs ++ row ∷ [] } ≡ after =
      ap (λ x. x.0) (returns-injective h3) in
    subst (Preserves host db) same (record {
      touches = inserted row refl;
      sound =
          IsSound-new host db.runs db.run_events id key fingerprint mode payload next at sound
            (ground arith);
      extends = record { more = []; grown = sym (append-nil db.run_events) };
    })
insert_run-Preserves host db after id key fingerprint mode payload next at (some existing) result
      sound h =
    let (_, h1) = passed (same_request host existing fingerprint mode) idempotency_conflict h in
    let (parsed, _, h2) = through (run_from_row host existing) h1 in
    let same : db ≡ after = ap (λ x. x.0) (returns-injective h2) in
    subst (Preserves host db) same
      (record { touches = untouched refl; sound = sound; extends = Extends-refl db })

-- What `createRun` has returned went through its transaction.
pub create_run-insert_run :
    (host : Host) (db after : Database) (id key fingerprint : String) (mode : ExecutionMode)
    (input : String) (next at : ℕ) (result : RunRow)
    → create_run host db id key fingerprint mode input next at ≡ returns (after, result)
    → (run_id : String) × (payload : String) × (insert_run host db
          (new_row host run_id key fingerprint mode payload next at)
          (find_request host key db.runs)
        ≡ returns (after, result))
unfolding create_run
create_run-insert_run host db after id key fingerprint mode input next at result h =
    let (_, _, h1) = through (require_fingerprint fingerprint) h in
    let (run_id, _, h2) = through (require_run_id id) h1 in
    let (payload, _, h3) = through (canonical_payload host input) h2 in
    (run_id, payload, caught-returns _ (after, result) h3)

pub create_run-Preserves :
    (host : Host) (db after : Database) (id key fingerprint : String) (mode : ExecutionMode)
    (input : String) (next at : ℕ) (result : RunRow)
    → IsSound host db.runs db.run_events
    → create_run host db id key fingerprint mode input next at ≡ returns (after, result)
    → Preserves host db after
create_run-Preserves host db after id key fingerprint mode input next at result sound h =
    let (run_id, payload, i) =
      create_run-insert_run host db after id key fingerprint mode input next at result h in
    insert_run-Preserves host db after run_id key fingerprint mode payload next at
      (find_request host key db.runs) result sound i

-- ===== src/Store/Claiming.antt =====
-- packages/db/src/store.ts: `claimDue` keeps the invariant; the run that it takes was due, and it
-- gets a lease that no guard of before matches.
use lineageguard.Base.{
  ℕ, suc, ◌+◌, ◌≡◌, refl, sym, ap, ◌∙◌, String, Bool, true, false, not, ◌&&◌, Option, none, some,
  List, [], ◌∷◌, ◌++◌, ◌===◌, ltb, leb, select, All, arith, eq_iff, inl, inr, Option-cases,
}
use lineageguard.Base.Results.{returns, through, passed, returns-injective}
use lineageguard.Base.Members.{any-Memᴰ, Memᴰ-select, Memᴰ-sort}
use lineageguard.Base.Sort.{sort}
use mathlib.Core.Path.{subst, subst₂}
use mathlib.Core.List.{Memᴰ}
use mathlib.Core.List.Memᴰ
use lineageguard.Base.Text.{has_length}
use lineageguard.Run.Events.{RunEvent, Fence, lease_acquired}
use lineageguard.Store.Rows.{
  Host, RunRow, EventRow, LeaseRow, Database, type_error, has_run, update_rows,
}
use lineageguard.Store.Events.{next_sequence, row_of, authorize_event}
use lineageguard.Store.Leases.{max_safe_integer, iso_string, run_from_row}
use lineageguard.Store.Claims.{
  is_due, due_le, first_of, next_due, stamp, claimed, insert_lease, conclude, expire, claim,
  claim_due,
}
use lineageguard.Store.Agree.{kept, Agrees}
use lineageguard.Store.Replay.{authorize_event_sound}
use lineageguard.Store.Sound.{
  untouched, updated, Preserves, Extends-refl, Extends-trans, has_run-update, IsSound,
}
use lineageguard.Store.Effects.{insert_lease-returns, conclude-Concluded}
use lineageguard.Store.Expiring.{
  vacant, update_rows-twice, Closed, expire-Closed, authorize_event-events,
}
use lineageguard.Store.Mirror.{Mirrors-claimed}
use lineageguard.Store.Preserve.{IsStored, IsSound-event, iso_string-returns}

-- What the query gives is a row of the table that is due and not locked.
pub next_due-Memᴰ :
    (db : Database) (is_locked : String → Bool) (at : ℕ) (row : RunRow)
    → next_due db is_locked at ≡ some row
    → Memᴰ row db.runs × (is_due at row ≡ true) × (is_locked row.id ≡ false)
unfolding next_due
next_due-Memᴰ db is_locked at row h =
    let (m, free) =
      Memᴰ-select (λ r. not (is_locked r.id)) (sort due_le (select (is_due at) db.runs))
        (first-Memᴰ _ h) in
    let (m', due) =
      Memᴰ-select (is_due at) db.runs (Memᴰ-sort due_le (select (is_due at) db.runs) m) in
    (m', due, ground arith)
  where
    first-Memᴰ : (rs : List RunRow) → first_of rs ≡ some row → Memᴰ row rs
    first-Memᴰ [] e = cc
    first-Memᴰ (r ∷ rs) e = Memᴰ.head (sym (ap (λ o. elim o [ none ↦ r | some x ↦ x ]) e))

pub All-Memᴰ {ℓ κ} :
    {A : Type ℓ} (P : A → Type κ) {x : A} (xs : List A) → All P xs → Memᴰ x xs → P x
All-Memᴰ P [] h m = absurd (Memᴰ.not-nil m)
All-Memᴰ P (y ∷ ys) (h, hs) m = elim (Memᴰ.cases_cons m) [
  | inl e ↦ subst P (sym e) h
  | inr k ↦ All-Memᴰ P ys hs k
]

pub Memᴰ-IsStored :
    (host : Host) (runs : List RunRow) (events : List EventRow) (row : RunRow)
    → IsSound host runs events
    → Memᴰ row runs
    → IsStored host runs events row.id row
Memᴰ-IsStored host runs events row sound m = record {
  agreed = All-Memᴰ (λ r. Agrees host r (kept events r.id)) runs sound.agree m;
  known = any-Memᴰ (λ r. r.id === row.id) ((eq_iff row.id row.id).1 refl) m;
}

-- The new lease of a vacant run.
acquire-Preserves :
    (host : Host) (db closed leased after : Database) (row result : RunRow)
    (now set_at expires_at : ℕ) (until : String) (f : Fence) (event : RunEvent)
    → Closed host db closed row
    → has_run db.runs row.id ≡ true
    → host.iso.millis (host.to_iso now) ≡ now
    → until ≡ host.to_iso expires_at
    → f.run_id ≡ row.id
    → authorize_event host closed row.id (lease_acquired f until) now ≡ returns event
    → leased.runs ≡ closed.runs
    → leased.run_events ≡ closed.run_events
    → conclude host leased set_at row.id
        (claimed f.lease_id f.worker_id f.generation expires_at now)
        event
        row
      ≡ returns (after, result)
    → Preserves host db after
acquire-Preserves host db closed leased after row result now set_at expires_at until f event c known
      trip u own auth lr le h =
    let change = claimed f.lease_id f.worker_id f.generation expires_at now in
    let done = conclude-Concluded host leased set_at row.id change event row after result h in
    let vacated = record closed { runs = update_rows row.id vacant db.runs } in
    let auth' : authorize_event host vacated row.id (lease_acquired f until) now ≡ returns event =
      authorize_event-events host closed (update_rows row.id vacant db.runs) row.id
        (lease_acquired f until) now
      ∙ auth in
    let (same, _, _, _) =
      authorize_event_sound host closed row.id (lease_acquired f until) event now auth in
    let stored : IsStored host (update_rows row.id vacant db.runs) closed.run_events row.id
        (vacant row) =
      record {
        agreed = c.agreed;
        known = has_run-update row.id vacant db.runs row.id (λ r. refl) ∙ known;
      } in
    let sound =
      IsSound-event host vacated row.id (vacant row) change (lease_acquired f until) event now
        stored auth' own trip
        (λ r s.
          Mirrors-claimed host f.lease_id f.worker_id f.generation now expires_at until f r s u refl
            refl refl)
        c.sound (λ r. refl) in
    let runs_are : after.runs ≡ update_rows row.id change (update_rows row.id vacant db.runs) =
      done.same_runs
      ∙ ap (update_rows row.id change) (lr ∙ c.same_runs)
      ∙ sym (update_rows-twice row.id change vacant (λ r. refl) (λ r. refl) db.runs) in
    let events_are : after.run_events
        ≡ closed.run_events ++ row_of host (lease_acquired f until) ∷ [] =
      done.same_events
      ∙ ap (λ es. es ++ row_of host event ∷ []) le
      ∙ ap (λ e. closed.run_events ++ row_of host e ∷ []) same in
    record {
      touches =
          updated row.id change (λ r. refl) (λ r. refl)
            (done.same_runs ∙ ap (update_rows row.id change) (lr ∙ c.same_runs));
      sound = subst₂ (IsSound host) (sym runs_are) (sym events_are) sound;
      extends =
          Extends-trans db closed after c.grown
            (record { more = row_of host (lease_acquired f until) ∷ []; grown = events_are });
    }

claim-Preserves :
    (host : Host) (db after : Database) (row : RunRow)
    (expiry_id event_id lease_id worker_id : String) (lease_millis now set_at : ℕ)
    (result : Option RunRow)
    → IsSound host db.runs db.run_events
    → IsStored host db.runs db.run_events row.id row
    → host.iso.millis (host.to_iso now) ≡ now
    → claim host db row expiry_id event_id lease_id worker_id lease_millis now set_at
      ≡ returns (after, result)
    → Preserves host db after
unfolding claim
claim-Preserves host db after row expiry_id event_id lease_id worker_id lease_millis now set_at
      result sound stored trip h =
    let (checked, _, h1) = through (run_from_row host row) h in
    let ((closed, sequence), x, h2) =
      through (expire host db row row.tenure expiry_id (next_sequence db row.id) now) h1 in
    let (at, _, h3) = through (iso_string host now) h2 in
    let (until, u, h4) = through (iso_string host (now + lease_millis)) h3 in
    let f = stamp event_id row.id sequence at lease_id worker_id (suc row.lease_generation) in
    let (event, auth, h5) =
      through (authorize_event host closed row.id (lease_acquired f until) now) h4 in
    let lease : LeaseRow = record {
      lease_id = lease_id;
      run_id = row.id;
      worker_id = worker_id;
      generation = suc row.lease_generation;
      acquired_at = now;
      expires_at = now + lease_millis;
    } in
    let (leased, i, h6) = through (insert_lease closed lease) h5 in
    let ((concluded, row_after), c, h7) =
      through
        (conclude host leased set_at row.id
          (claimed lease_id worker_id (suc row.lease_generation) (now + lease_millis) now) event
          row)
        h6 in
    let inserted = insert_lease-returns closed leased lease i in
    let same : concluded ≡ after = ap (λ x. x.0) (returns-injective h7) in
    subst (Preserves host db) same (
      acquire-Preserves host db closed leased concluded row row_after now set_at
        (now + lease_millis) until f event
        (expire-Closed host db row expiry_id (next_sequence db row.id) now sound stored trip
          row.tenure closed sequence refl x)
        stored.known trip (iso_string-returns host (now + lease_millis) until u) refl auth
        (ap (λ d. d.runs) inserted) (ap (λ d. d.run_events) inserted) c)

pub claim_due-Preserves :
    (host : Host) (db after : Database) (is_locked : String → Bool)
    (expiry_id event_id lease_id worker_id : String) (lease_millis due now set_at : ℕ)
    (result : Option RunRow)
    → IsSound host db.runs db.run_events
    → host.iso.millis (host.to_iso now) ≡ now
    → claim_due host db is_locked expiry_id event_id lease_id worker_id lease_millis due now set_at
      ≡ returns (after, result)
    → Preserves host db after
unfolding claim_due
claim_due-Preserves host db after is_locked expiry_id event_id lease_id worker_id lease_millis due
      now set_at result sound trip h =
    let (_, h1) = passed (has_length 1 160 worker_id) type_error h in
    let (_, h2) = passed (leb lease_millis max_safe_integer && ltb 0 lease_millis) type_error h1 in
    elim (Option-cases (next_due db is_locked due)) [
      | inl e ↦
          let same : db ≡ after = ap (λ x. x.0) (returns-injective (rw e at h2)) in
          subst (Preserves host db) same
            (record { touches = untouched refl; sound = sound; extends = Extends-refl db })
      | inr (row, e) ↦
          claim-Preserves host db after row expiry_id event_id lease_id worker_id lease_millis now
            set_at result sound
            (Memᴰ-IsStored host db.runs db.run_events row sound
              (next_due-Memᴰ db is_locked due row e).0)
            trip (rw e at h2)
    ]

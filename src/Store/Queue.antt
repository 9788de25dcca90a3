-- ===== src/Store/Queue.antt =====
-- packages/db/src/store.ts: what `claimDue` takes, and what it leaves alone.
use lineageguard.Base.{
  ℕ, suc, ◌+◌, ◌≡◌, refl, sym, ap, ◌∙◌, ◌⊎◌, String, Bool, true, false, not, ◌&&◌, ◌||◌, Option,
  none, some, List, [], ◌∷◌, ltb, leb, all, select, arith, Bool-cases, inl, inr, Option-cases,
}
use lineageguard.Base.Results.{returns, demand, through, passed, returns-injective}
use lineageguard.Base.Sort.{insert, sort, string_le, utf16}
use lineageguard.Base.Order.{ordered, ordered-sort, ordered-select, units_le_total, units_le_trans}
use lineageguard.Base.Text.{has_length, tagged_hex}
use mathlib.Core.Path.{subst}
use mathlib.Core.List.{Memᴰ}
use lineageguard.Run.Events.{lease_acquired}
use lineageguard.Store.Rows.{
  Host, RunRow, LeaseRow, Database, type_error, corrupt_data, state_conflict,
}
use lineageguard.Store.Events.{next_sequence, authorize_event}
use lineageguard.Store.Leases.{max_safe_integer, iso_string, run_from_row, require_run_id}
use lineageguard.Store.Claims.{
  is_due, due_le, first_of, next_due, stamp, claimed, insert_lease, conclude, expire, claim,
  claim_due,
}
use lineageguard.Store.Effects.{conclude-Concluded}
use lineageguard.Store.Claiming.{next_due-Memᴰ}

due_le_total : (x y : RunRow) → due_le x y ≡ false → due_le y x ≡ true
unfolding string_le
due_le_total x y h = ground (arith, units_le_total (utf16 x.id) (utf16 y.id))

due_le_trans : (x y z : RunRow) → due_le x y ≡ true → due_le y z ≡ true → due_le x z ≡ true
unfolding string_le
due_le_trans x y z h k = ground (arith, units_le_trans (utf16 x.id) (utf16 y.id) (utf16 z.id))

due_le_refl : (x : RunRow) → due_le x x ≡ true
due_le_refl x = elim (Bool-cases (due_le x x)) [ inl e ↦ e | inr e ↦ due_le_total x x e ]

all-insert :
    (p : RunRow → Bool) (x : RunRow) (xs : List RunRow)
    → all p (insert due_le x xs) ≡ (p x && all p xs)
unfolding insert
all-insert p x [] = refl
all-insert p x (y ∷ ys) = ground (arith, all-insert p x ys)

all-sort : (p : RunRow → Bool) (xs : List RunRow) → all p (sort due_le xs) ≡ all p xs
unfolding sort
all-sort p [] = refl
all-sort p (x ∷ xs) = all-insert p x (sort due_le xs) ∙ ap (λ b. p x && b) (all-sort p xs)

all-select :
    (p q : RunRow → Bool) (xs : List RunRow) → all p (select q xs) ≡ all (λ x. not (q x) || p x) xs
all-select p q [] = refl
all-select p q (x ∷ xs) = ground (arith, all-select p q xs)

all_same :
    (p q : RunRow → Bool) (xs : List RunRow) → ((x : RunRow) → p x ≡ q x) → all p xs ≡ all q xs
all_same p q [] h = refl
all_same p q (x ∷ xs) h = ground (arith, h x, all_same p q xs h)

first_none : (rs : List RunRow) → first_of rs ≡ none → all (λ _. false) rs ≡ true
first_none [] h = refl
first_none (r ∷ rs) h = cc

first_least :
    (rs : List RunRow) (row : RunRow)
    → ordered due_le rs ≡ true
    → first_of rs ≡ some row
    → all (due_le row) rs ≡ true
first_least [] row o h = cc
first_least (r ∷ rs) row o h =
    let same : r ≡ row = ap (λ x. elim x [ none ↦ r | some y ↦ y ]) h in
    subst (λ x. all (due_le x) (r ∷ rs) ≡ true) same (ground (arith, due_le_refl r))

module _ (db : Database) (is_locked : String → Bool) (at : ℕ) where
  -- A due run that no other transaction locks.
  abbrev pub is_open : RunRow → Bool
  is_open r = is_due at r && not (is_locked r.id)

  -- a test of every row that the query orders
  all-next :
      (p : RunRow → Bool)
      → all p (select (λ r. not (is_locked r.id)) (sort due_le (select (is_due at) db.runs)))
        ≡ all (λ r. not (is_open r) || p r) db.runs
  all-next p =
      all-select p (λ r. not (is_locked r.id)) (sort due_le (select (is_due at) db.runs))
      ∙ all-sort (λ r. not (not (is_locked r.id)) || p r) (select (is_due at) db.runs)
      ∙ all-select (λ r. not (not (is_locked r.id)) || p r) (is_due at) db.runs
      ∙ all_same _ (λ r. not (is_open r) || p r) db.runs (λ x. ground arith)

  pub next_due-none : next_due db is_locked at ≡ none → all (λ r. not (is_open r)) db.runs ≡ true
  unfolding next_due
  next_due-none h =
      all_same (λ r. not (is_open r)) (λ r. not (is_open r) || false) db.runs (λ x. ground arith)
      ∙ sym (all-next (λ _. false))
      ∙ first_none _ h

  -- The run that the query gives has waited longest.
  pub next_due-first :
      (row : RunRow)
      → next_due db is_locked at ≡ some row
      → all (λ r. not (is_open r) || due_le row r) db.runs ≡ true
  unfolding next_due
  next_due-first row h =
      sym (all-next (due_le row))
      ∙ first_least _ row
          (ordered-select due_le (λ r. not (is_locked r.id))
            (sort due_le (select (is_due at) db.runs))
            (ordered-sort due_le due_le_total due_le_trans (select (is_due at) db.runs)))
          h

-- What a claim returns is the claimed row, with its payload read.
pub record IsClaimOf (row result : RunRow) (lease_id worker_id : String) (expires_at : ℕ)
    : Type 0 where
  pub same_id : result.id ≡ row.id
  pub same_status : result.status ≡ row.status
  pub next_version : result.version ≡ suc row.version
  pub next_generation : result.lease_generation ≡ suc row.lease_generation
  pub new_tenure :
      result.tenure
      ≡ some (record { lease_id = lease_id; worker_id = worker_id; lease_expires_at = expires_at })

run_from_row-returns :
    (host : Host) (row result : RunRow)
    → run_from_row host row ≡ returns result
    → (id payload : String) × (result ≡ record row { id = id; payload = payload }) × (id ≡ row.id)
unfolding run_from_row require_run_id
run_from_row-returns host row result h =
    let (id, i, h1) = through (require_run_id row.id) h in
    let (payload, _, h2) = through (demand (host.parse_payload row.payload) corrupt_data) h1 in
    let (_, h3) = passed (leb row.version max_safe_integer) state_conflict h2 in
    let (_, same) = passed (tagged_hex "run_" 24 row.id) type_error i in
    (id, payload, sym (returns-injective h3), sym (returns-injective same))

claim-returns :
    (host : Host) (db after : Database) (row : RunRow)
    (expiry_id event_id lease_id worker_id : String) (lease_millis now set_at : ℕ)
    (o : Option RunRow)
    → claim host db row expiry_id event_id lease_id worker_id lease_millis now set_at
      ≡ returns (after, o)
    → (result : RunRow) × (o ≡ some result)
      × IsClaimOf row result lease_id worker_id (now + lease_millis)
unfolding claim
claim-returns host db after row expiry_id event_id lease_id worker_id lease_millis now set_at o h =
    let (_, _, h1) = through (run_from_row host row) h in
    let ((closed, sequence), _, h2) =
      through (expire host db row row.tenure expiry_id (next_sequence db row.id) now) h1 in
    let (at, _, h3) = through (iso_string host now) h2 in
    let (until, _, h4) = through (iso_string host (now + lease_millis)) h3 in
    let f = stamp event_id row.id sequence at lease_id worker_id (suc row.lease_generation) in
    let (event, _, h5) =
      through (authorize_event host closed row.id (lease_acquired f until) now) h4 in
    let lease : LeaseRow = record {
      lease_id = lease_id;
      run_id = row.id;
      worker_id = worker_id;
      generation = suc row.lease_generation;
      acquired_at = now;
      expires_at = now + lease_millis;
    } in
    let (leased, _, h6) = through (insert_lease closed lease) h5 in
    let ((concluded, result), c, h7) =
      through
        (conclude host leased set_at row.id
          (claimed lease_id worker_id (suc row.lease_generation) (now + lease_millis) now) event
          row)
        h6 in
    let done =
      conclude-Concluded host leased set_at row.id
        (claimed lease_id worker_id (suc row.lease_generation) (now + lease_millis) now) event row
        concluded result c in
    let (id, payload, is, same) = run_from_row-returns host _ result done.same_result in
    (
      result,
      ap (λ x. x.1) (sym (returns-injective h7)),
      record {
        same_id = ap (λ r. r.id) is ∙ same;
        same_status = ap (λ r. r.status) is;
        next_version = ap (λ r. r.version) is;
        next_generation = ap (λ r. r.lease_generation) is;
        new_tenure = ap (λ r. r.tenure) is;
      },
    )

-- `claimDue` returns no run, and then stores nothing, only when no stored run is due and free of
-- other transactions' locks. A run that it returns is the one of these that has waited longest, under the
-- new lease, with the next generation and the next version.
pub claim_due-returns :
    (host : Host) (db after : Database) (is_locked : String → Bool)
    (expiry_id event_id lease_id worker_id : String) (lease_millis due now set_at : ℕ)
    (o : Option RunRow)
    → claim_due host db is_locked expiry_id event_id lease_id worker_id lease_millis due now set_at
      ≡ returns (after, o)
    → ((o ≡ none) × (after ≡ db) × (all (λ r. not (is_open db is_locked due r)) db.runs ≡ true))
      ⊎ ((row : RunRow) × (result : RunRow) × (o ≡ some result)
          × IsClaimOf row result lease_id worker_id (now + lease_millis)
          × Memᴰ row db.runs
          × (is_open db is_locked due row ≡ true)
          × (all (λ r. not (is_open db is_locked due r) || due_le row r) db.runs ≡ true))
unfolding claim_due
claim_due-returns host db after is_locked expiry_id event_id lease_id worker_id lease_millis due now
      set_at o h =
    let (_, h1) = passed (has_length 1 160 worker_id) type_error h in
    let (_, h2) = passed (leb lease_millis max_safe_integer && ltb 0 lease_millis) type_error h1 in
    elim (Option-cases (next_due db is_locked due)) [
      | inl e ↦
          let both = returns-injective (rw e at h2) in
          inl (ap (λ x. x.1) (sym both), ap (λ x. x.0) (sym both), next_due-none db is_locked due e)
      | inr (row, e) ↦
          let (m, is_due, free) = next_due-Memᴰ db is_locked due row e in
          let (result, some_is, c) =
            claim-returns host db after row expiry_id event_id lease_id worker_id lease_millis now
              set_at o (rw e at h2) in
          inr (row, result, some_is, c, m, ground arith, next_due-first db is_locked due row e)
    ]

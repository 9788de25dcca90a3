-- ===== src/Store/Appending.antt =====
-- packages/db/src/store.ts: the version that `appendPositioned` gives back is the next fence.
use lineageguard.Base.{
  ℕ, suc, ◌+◌, ◌≡◌, refl, sym, ap, ◌∙◌, String, Bool, true, false, Option, none, some, List, [],
  ◌∷◌, ◌===◌, leb, arith, Bool-cases, inl, inr, if◌then◌else◌,
}
use lineageguard.Base.Results.{returns, throws, demand, through, passed, returns-injective}
use lineageguard.Store.Rows.{
  Host, RunRow, RecordTable, RecordRow, Database, corrupt_data, not_found, lease_conflict,
  LeaseGuard, find_row, update_rows,
}
use lineageguard.Store.Leases.{
  max_safe_integer, require_run_id, run_from_row, holds_guard, lock_run_for_lease,
}
use lineageguard.Store.Records.{
  bumped, next_position, Appended, insert_record, canonical_record, append_record,
  append_positioned,
}
use lineageguard.Store.Effects.{lock_run_for_lease-returns}
use lineageguard.Store.Recording.{insert_record-returns}

find_row-bumped :
    (id : String) (now : ℕ) (runs : List RunRow) (r : RunRow)
    → find_row id runs ≡ some r
    → find_row id (update_rows id (bumped now) runs) ≡ some (bumped now r)
find_row-bumped id now [] r h = cc
find_row-bumped id now (x ∷ xs) r h = elim (Bool-cases (x.id === id)) [
  | inl e ↦
      let found : some x ≡ some r = rw e at h in
      rw (e, e) (ap (λ o. elim o [ none ↦ none | some y ↦ some (bumped now y) ]) found)
  | inr e ↦ rw (e, e) (find_row-bumped id now xs r (rw e at h))
]

-- A row that parses does so in its next version.
run_from_row-bumped :
    (host : Host) (now : ℕ) (row parsed : RunRow)
    → run_from_row host row ≡ returns parsed
    → leb (suc row.version) max_safe_integer ≡ true
    → (next : RunRow) × (run_from_row host (bumped now row) ≡ returns next)
unfolding run_from_row
run_from_row-bumped host now row parsed h safe =
    let (id, i, h1) = through (require_run_id row.id) h in
    let (payload, p, _) = through (demand (host.parse_payload row.payload) corrupt_data) h1 in
    (record (bumped now row) { id = id; payload = payload }, rw (i, p, safe) refl)

-- What locks a run finds it, parses it and matches it with the guard, and this is all it needs.
lock_run_for_lease-found :
    (host : Host) (db : Database) (run_id : String) (guard : LeaseGuard) (at : ℕ)
    (row next : RunRow)
    → find_row run_id db.runs ≡ some row
    → run_from_row host row ≡ returns next
    → (b : Bool) → holds_guard host guard at row ≡ b
    → lock_run_for_lease host db run_id guard at
      ≡ (if b then returns row else throws lease_conflict)
unfolding lock_run_for_lease
lock_run_for_lease-found host db run_id guard at row next f p true g = rw (f, p, g) refl
lock_run_for_lease-found host db run_id guard at row next f p false g = rw (f, p, g) refl

lock_run_for_lease-parsed :
    (host : Host) (db : Database) (run_id : String) (guard : LeaseGuard) (at : ℕ) (row : RunRow)
    → lock_run_for_lease host db run_id guard at ≡ returns row
    → (parsed : RunRow) × (run_from_row host row ≡ returns parsed)
unfolding lock_run_for_lease
lock_run_for_lease-parsed host db run_id guard at row h =
    let (found, f, h1) = through (demand (find_row run_id db.runs) not_found) h in
    let (parsed, p, h2) = through (run_from_row host found) h1 in
    let (_, h3) = passed (holds_guard host guard at found) lease_conflict h2 in
    (parsed, ap (run_from_row host) (sym (returns-injective h3)) ∙ p)

abbrev pub with_fence : LeaseGuard → ℕ → LeaseGuard
with_fence guard version = record guard { fencing_version = version }

holds_guard-bumped :
    (host : Host) (guard : LeaseGuard) (at now : ℕ) (row : RunRow)
    → holds_guard host guard at row ≡ true
    → (holds_guard host (with_fence guard (guard.fencing_version + 1)) at (bumped now row) ≡ true)
      × (holds_guard host guard at (bumped now row) ≡ false)
holds_guard-bumped host guard at now row h = (ground arith, ground arith)

append_record-returns :
    (host : Host) (db after : Database) (table : RecordTable) (id run_id : String)
    (guard : LeaseGuard) (position : ℕ) (payload : String) (now : ℕ) (result : Appended)
    → append_record host db table id run_id guard position payload (bumped now)
      ≡ returns (after, result)
    → (after.runs ≡ update_rows run_id (bumped now) db.runs)
      × (result.version ≡ guard.fencing_version + 1)
unfolding append_record
append_record-returns host db after table id run_id guard position payload now result h =
    let row : RecordRow = record {
      table = table;
      id = id;
      run_id = run_id;
      position = position;
      payload = payload;
    } in
    let (stored, s, h1) = through (insert_record host db row) h in
    let both = returns-injective h1 in
    (
      sym (ap (λ x. x.0.runs) both)
          ∙ ap (λ d. update_rows run_id (bumped now) d.runs)
              (insert_record-returns host db stored row s),
      sym (ap (λ x. x.1.version) both),
    )

append_positioned-returns :
    (host : Host) (parse : String → Option String) (max_bytes : ℕ) (db after : Database)
    (table : RecordTable) (id run_id : String) (guard : LeaseGuard) (input : String)
    (locked_at now : ℕ) (result : Appended)
    → append_positioned host parse max_bytes db table id run_id guard input locked_at now
      ≡ returns (after, result)
    → (after.runs ≡ update_rows run_id (bumped now) db.runs)
      × (result.version ≡ guard.fencing_version + 1)
unfolding append_positioned
append_positioned-returns host parse max_bytes db after table id run_id guard input locked_at now
      result h =
    let (payload, _, h1) = through (canonical_record host parse max_bytes input) h in
    let (row, l, h2) = through (lock_run_for_lease host db run_id guard locked_at) h1 in
    append_record-returns host db after table id run_id guard (next_position db table run_id)
      payload now result h2

-- After a record is appended, the guard with the version that was given back locks the run for as
-- long as the lease runs, and finds it in its next version; the guard that was used throws a lease
-- conflict, at any such time `at`. The next version is a safe integer.
pub append_positioned-fence :
    (host : Host) (parse : String → Option String) (max_bytes : ℕ) (db after : Database)
    (table : RecordTable) (id run_id : String) (guard : LeaseGuard) (input : String)
    (locked_at now at : ℕ) (result : Appended) (row : RunRow)
    → append_positioned host parse max_bytes db table id run_id guard input locked_at now
      ≡ returns (after, result)
    → lock_run_for_lease host db run_id guard at ≡ returns row
    → leb (suc row.version) max_safe_integer ≡ true
    → (lock_run_for_lease host after run_id (with_fence guard result.version) at
        ≡ returns (bumped now row))
      × (lock_run_for_lease host after run_id guard at ≡ throws lease_conflict)
append_positioned-fence host parse max_bytes db after table id run_id guard input locked_at now at
      result row h l safe =
    let (runs_are, version_is) =
      append_positioned-returns host parse max_bytes db after table id run_id guard input locked_at
        now result h in
    let (f, held) = lock_run_for_lease-returns host db run_id guard at row l in
    let (parsed, p) = lock_run_for_lease-parsed host db run_id guard at row l in
    let (next, q) = run_from_row-bumped host now row parsed p safe in
    let found : find_row run_id after.runs ≡ some (bumped now row) =
      ap (find_row run_id) runs_are ∙ find_row-bumped run_id now db.runs row f in
    let (new, old) = holds_guard-bumped host guard at now row held in
    (
      lock_run_for_lease-found host after run_id (with_fence guard result.version) at
          (bumped now row) next found q true
          (ap (λ v. holds_guard host (with_fence guard v) at (bumped now row)) version_is ∙ new),
      lock_run_for_lease-found host after run_id guard at (bumped now row) next found q false old,
    )

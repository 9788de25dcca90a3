-- ===== src/Store/Reached.antt =====
-- packages/db/src/store.ts: what holds of every database that a sequence of transactions leaves
-- behind.
use lineageguard.Base.{◌≡◌, refl, sym, ◌∙◌, List, [], ◌∷◌, All}
use lineageguard.Base.Results.{returns}
use mathlib.Core.Path.{subst, subst₂}
use mathlib.Core.List.{Memᴰ, append-nil}
use lineageguard.Run.Status.{completed, created}
use lineageguard.Run.Graph.{success_path}
use lineageguard.Run.Events.{RunEvent}
use lineageguard.Run.Stream.{start, replay}
use lineageguard.Run.Progress.{statuses, final_status, completed-success_path}
use lineageguard.Store.Rows.{Host, RunRow, Database, events_of}
use lineageguard.Store.Events.{authorized_events}
use lineageguard.Store.Replay.{payloads, IsAccepted, authorized_events_iff}
use lineageguard.Store.Agree.{kept, Agrees, Extends, events_of-kept}
use lineageguard.Store.Sound.{Extends-refl, Extends-trans, IsSound}
use lineageguard.Store.Claiming.{All-Memᴰ}
use lineageguard.Store.History.{History, founded, committed, elsewhere, execute-Preserves}

IsSound-empty :
    (host : Host) (db : Database)
    → db.runs ≡ []
    → db.run_events ≡ []
    → IsSound host db.runs db.run_events
IsSound-empty host db r e =
    subst₂ (IsSound host) (sym r) (sym e) (record { agree = tt; owned = refl })

All-Extends :
    (db after : Database) (past : List Database)
    → Extends db after
    → All (λ seen. Extends seen db) past
    → All (λ seen. Extends seen after) past
All-Extends db after [] e h = tt
All-Extends db after (seen ∷ rest) e (h, hs) =
    (Extends-trans seen db after h e, All-Extends db after rest e hs)

same_events-Extends : (db after : Database) → after.run_events ≡ db.run_events → Extends db after
same_events-Extends db after e = record { more = []; grown = e ∙ sym (append-nil db.run_events) }

module _ (host : Host) where
  pub reached :
      (db : Database) (past : List Database)
      → History host (db ∷ past)
      → IsSound host db.runs db.run_events × All (λ seen. Extends seen db) (db ∷ past)
  reached db [] (founded _ r e) = (IsSound-empty host db r e, (Extends-refl db, tt))
  reached after (_ ∷ past) (committed c seen _ db _ h m trip x) =
      let (sound, earlier) = reached db past h in
      let ext = All-Memᴰ (λ s. Extends s db) (db ∷ past) earlier m in
      let p = execute-Preserves host seen db after c ext sound trip x in
      (p.sound, (Extends-refl after, All-Extends db after (db ∷ past) p.extends earlier))
  reached after (_ ∷ past) (elsewhere _ db _ h r e) =
      let (sound, earlier) = reached db past h in
      (
        subst₂ (IsSound host) (sym r) (sym e) sound,
        (
          Extends-refl after,
          All-Extends db after (db ∷ past) (same_events-Extends db after e) earlier,
        ),
      )

-- After any history of the transactions that write runs or events, in any order, and of others that
-- write neither, every stored run agrees with its stored events: they are none or an accepted stream, with columns that say what the payloads say, and the status, the lease and
-- the generation of the run are those that replaying the events gives.
pub History-Agrees :
    (host : Host) (db : Database) (past : List Database)
    → History host (db ∷ past)
    → All (λ r. Agrees host r (events_of db r.id)) db.runs
History-Agrees host db past h =
    let (sound, _) = reached host db past h in ordered db.runs sound.agree
  where
    ordered :
        (rs : List RunRow)
        → All (λ r. Agrees host r (kept db.run_events r.id)) rs
        → All (λ r. Agrees host r (events_of db r.id)) rs
    ordered [] a = tt
    ordered (r ∷ rs) (a, rest) =
        (subst (Agrees host r) (sym (events_of-kept host db r r.id a)) a, ordered rs rest)

completed_stream :
    (host : Host) (es : List RunEvent)
    → IsAccepted host es
    → (replay start es).current_status ≡ completed
    → statuses es ≡ success_path 12 created
unfolding final_status start replay
completed_stream host [] a e = cc
completed_stream host (x ∷ xs) a e = completed-success_path host.iso (x ∷ xs) a e

-- A stored run that has status COMPLETED after any history of the transactions that write runs or
-- events, and of others that write neither, has stored events that change its status along all
-- twelve steps in their order.
pub History-completed :
    (host : Host) (db : Database) (past : List Database) (row : RunRow)
    → History host (db ∷ past)
    → Memᴰ row db.runs
    → row.status ≡ completed
    → statuses (payloads (events_of db row.id)) ≡ success_path 12 created
History-completed host db past row h m done =
    let a =
      All-Memᴰ (λ r. Agrees host r (events_of db r.id)) db.runs (History-Agrees host db past h) m in
    completed_stream host (payloads (events_of db row.id)) a.accepted
      (sym a.mirrors.same_status ∙ done)

-- After any history of the transactions that write runs or events, and of others that write
-- neither, reading the events of a stored run back gives all of them and never finds them corrupt.
pub History-authorized_events :
    (host : Host) (db : Database) (past : List Database) (row : RunRow)
    → History host (db ∷ past)
    → Memᴰ row db.runs
    → authorized_events host db row.id ≡ returns (events_of db row.id)
History-authorized_events host db past row h m =
    let a =
      All-Memᴰ (λ r. Agrees host r (events_of db r.id)) db.runs (History-Agrees host db past h) m in
    (authorized_events_iff host db row.id (events_of db row.id)).1 (a.faithful, a.accepted, refl)

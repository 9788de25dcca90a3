-- ===== src/Store/Sound.antt =====
-- packages/db/src/store.ts: the invariant of the whole database, and what keeps it.
use lineageguard.Base.{
  ℕ, suc, ◌≡◌, refl, sym, ap, ◌∙◌, String, Bool, true, false, List, [], ◌∷◌, ◌++◌, ◌===◌, map, all,
  select, All, arith, eq_iff, all-append, Bool-cases, inl, inr, if◌then◌else◌,
}
use mathlib.Core.List.{map-append, append-nil, append_assoc}
use mathlib.Core.Path.{subst}
use lineageguard.Run.Events.{RunEvent, fence}
use lineageguard.Run.Stream.{start, advance, replay, is_stream}
use lineageguard.Run.Admission.{Admits}
use lineageguard.Store.Rows.{Host, RunRow, EventRow, Database, stored_for, has_run, update_rows}
use lineageguard.Store.Events.{row_of}
use lineageguard.Store.Replay.{payloads, IsFaithful, accept}
use lineageguard.Store.Agree.{Extends, kept, Agrees, Mirrors, replay-append, admitted_last}

select-append {ℓ} :
    {A : Type ℓ} (p : A → Bool) (xs ys : List A) → select p (xs ++ ys) ≡ select p xs ++ select p ys
select-append p [] ys = refl
select-append p (x ∷ xs) ys = ground (arith, select-append p xs ys)

pub kept-append :
    (xs ys : List EventRow) (run_id : String)
    → kept (xs ++ ys) run_id ≡ kept xs run_id ++ kept ys run_id
kept-append xs ys run_id = select-append (stored_for run_id) xs ys

-- Rows that all belong to one run.
abbrev pub all_of : String → List EventRow → Bool
all_of run_id = all (stored_for run_id)

kept_own : (es : List EventRow) (run_id : String) → all_of run_id es ≡ true → kept es run_id ≡ es
kept_own [] run_id h = refl
kept_own (e ∷ es) run_id h = ground (arith, kept_own es run_id)

kept_other :
    (es : List EventRow) (run_id other : String)
    → all_of run_id es ≡ true
    → (run_id === other) ≡ false
    → kept es other ≡ []
kept_other [] run_id other h k = refl
kept_other (e ∷ es) run_id other h k = ground (
  arith,
  kept_other es run_id other,
  eq_iff e.run_id run_id,
  eq_iff e.run_id other,
  eq_iff run_id other,
)

pub kept-snoc :
    (es : List EventRow) (e : EventRow) (run_id : String)
    → e.run_id ≡ run_id
    → kept (es ++ e ∷ []) run_id ≡ kept es run_id ++ e ∷ []
kept-snoc es e run_id same =
    kept-append es (e ∷ []) run_id
    ∙ ap (λ z. kept es run_id ++ z)
        (kept_own (e ∷ []) run_id (ground (arith, eq_iff e.run_id run_id)))

-- An update of a row that does not change its key.
abbrev pub Rekeys : (RunRow → RunRow) → Type 0
Rekeys change = (r : RunRow) → (change r).id ≡ r.id

pub has_run-update :
    (id : String) (change : RunRow → RunRow) (runs : List RunRow) (x : String)
    → Rekeys change
    → has_run (update_rows id change runs) x ≡ has_run runs x
has_run-update id change [] x k = refl
has_run-update id change (r ∷ rs) x k = elim (Bool-cases (r.id === id)) [
  | inl e ↦ rw (e, k r, has_run-update id change rs x k) refl
  | inr e ↦ rw (e, has_run-update id change rs x k) refl
]

-- Every stored run agrees with its events, and no event is without its run.
pub record IsSound (host : Host) (runs : List RunRow) (events : List EventRow) : Type 0 where
  pub agree : All (λ r. Agrees host r (kept events r.id)) runs
  pub owned : all (λ e. has_run runs e.run_id) events ≡ true

All-map {ℓ κ} :
    {A : Type ℓ} {P : A → Type κ} (Q : A → Type κ) (f : A → A) (xs : List A)
    → ((x : A) → P x → Q (f x))
    → All P xs
    → All Q (map f xs)
All-map Q f [] k h = tt
All-map Q f (x ∷ xs) k (h, hs) = (k x h, All-map Q f xs k hs)

all-has_run :
    (es : List EventRow) (run_id : String) (runs : List RunRow)
    → has_run runs run_id ≡ true
    → all_of run_id es ≡ true
    → all (λ e. has_run runs e.run_id) es ≡ true
all-has_run [] run_id runs h k = refl
all-has_run (e ∷ es) run_id runs h k =
    let same : e.run_id ≡ run_id = (eq_iff e.run_id run_id).0 (ground arith) in
    rw (same, h) (all-has_run es run_id runs h (ground arith))

all-has_run-update :
    (id : String) (change : RunRow → RunRow) (runs : List RunRow) (es : List EventRow)
    → Rekeys change
    → all (λ e. has_run runs e.run_id) es ≡ true
    → all (λ e. has_run (update_rows id change runs) e.run_id) es ≡ true
all-has_run-update id change runs [] k h = refl
all-has_run-update id change runs (e ∷ es) k h =
    rw (has_run-update id change runs e.run_id k)
      (ground (arith, all-has_run-update id change runs es k))

module _ (host : Host) (events new : List EventRow) (id : String) (change : RunRow → RunRow)
    (own : all_of id new ≡ true) (rekeys : Rekeys change) where
  kept-changed :
      (r : RunRow) → r.id ≡ id → kept events r.id ++ new ≡ kept (events ++ new) (change r).id
  kept-changed r same = sym (
      ap (kept (events ++ new)) (rekeys r)
      ∙ kept-append events new r.id
      ∙ ap (λ z. kept events r.id ++ z) (ap (kept new) same ∙ kept_own new id own))

  kept-unchanged :
      (r : RunRow) → (r.id === id) ≡ false → kept events r.id ≡ kept (events ++ new) r.id
  kept-unchanged r e =
      let other : (id === r.id) ≡ false = ground (arith, eq_iff r.id id, eq_iff id r.id) in
      sym (
        kept-append events new r.id
        ∙ ap (λ z. kept events r.id ++ z) (kept_other new id r.id own other)
        ∙ append-nil (kept events r.id))

  Agrees-update :
      (r : RunRow) (b : Bool)
      → (r.id === id) ≡ b
      → (r.id ≡ id
          → Agrees host r (kept events r.id)
          → Agrees host (change r) (kept events r.id ++ new))
      → Agrees host r (kept events r.id)
      → Agrees host
          (if b then change r else r)
          (kept (events ++ new) (if b then change r else r).id)
  Agrees-update r true e step a =
      let same = (eq_iff r.id id).0 e in
      subst (Agrees host (change r)) (kept-changed r same) (step same a)
  Agrees-update r false e step a = subst (Agrees host r) (kept-unchanged r e) a

  -- An operation that updates the row of one run and appends events of that run keeps the
  -- invariant, when the new row agrees with the longer stream.
  pub IsSound-extend :
      (runs : List RunRow)
      → IsSound host runs events
      → has_run runs id ≡ true
      → ((r : RunRow)
          → r.id ≡ id
          → Agrees host r (kept events r.id)
          → Agrees host (change r) (kept events r.id ++ new))
      → IsSound host (update_rows id change runs) (events ++ new)
  IsSound-extend runs sound known step = record {
    agree =
        All-map (λ r. Agrees host r (kept (events ++ new) r.id))
          (λ r. if r.id === id then change r else r) runs
          (λ r. Agrees-update r (r.id === id) refl (step r)) sound.agree;
    owned =
        rw
          (
            all-append (λ e. has_run (update_rows id change runs) e.run_id) events new,
            all-has_run-update id change runs events rekeys sound.owned,
            all-has_run-update id change runs new rekeys (all-has_run new id runs known own),
          )
          refl;
  }

All-append {ℓ κ} :
    {A : Type ℓ} (P : A → Type κ) (xs ys : List A) → All P xs → All P ys → All P (xs ++ ys)
All-append P [] ys h k = k
All-append P (x ∷ xs) ys (h, hs) k = (h, All-append P xs ys hs k)

IsFaithful-row_of :
    (host : Host) (e : RunEvent) (now : ℕ)
    → (fence e).occurred_at ≡ host.to_iso now
    → host.iso.is_datetime (host.to_iso now) ≡ true
    → host.iso.millis (host.to_iso now) ≡ now
    → IsFaithful host (row_of host e)
IsFaithful-row_of host e now text time trip =
    let at : now ≡ host.iso.millis (fence e).occurred_at =
      sym trip ∙ ap host.iso.millis (sym text) in
    record {
      same_id = refl;
      same_run = refl;
      same_sequence = refl;
      same_type = refl;
      same_time = refl;
      same_text = text ∙ ap host.to_iso at;
      is_time = subst (λ t. host.iso.is_datetime (host.to_iso t) ≡ true) at time;
    }

-- One more event: the row that mirrors the state behind it agrees with the longer stream.
pub Agrees-snoc :
    (host : Host) (row changed : RunRow) (before : List EventRow) (e : RunEvent) (now : ℕ)
    → Agrees host row before
    → is_stream host.iso (payloads before ++ e ∷ []) ≡ true
    → (fence e).occurred_at ≡ host.to_iso now
    → host.iso.is_datetime (host.to_iso now) ≡ true
    → host.iso.millis (host.to_iso now) ≡ now
    → (Admits host.iso (replay start (payloads before)) e
        → Mirrors host row (replay start (payloads before))
        → Mirrors host changed (advance (replay start (payloads before)) e))
    → Agrees host changed (before ++ row_of host e ∷ [])
unfolding replay
Agrees-snoc host row changed before e now a accepted text time trip next =
    let grown = map-append (λ x. x.payload) before (row_of host e ∷ []) in
    record {
      faithful =
          All-append (IsFaithful host) before (row_of host e ∷ []) a.faithful
            (IsFaithful-row_of host e now text time trip, tt);
      accepted = rw grown (accept host (payloads before ++ e ∷ []) accepted);
      mirrors =
          rw (grown, replay-append start (payloads before) (e ∷ []))
            (next (admitted_last host (payloads before) e accepted).2 a.mirrors);
    }

-- What an operation does to the rows of the runs: nothing, a new row, or an update of one run that
-- raises its version by one.
pub data Touches (db after : Database) : Type 0 where
  untouched : after.runs ≡ db.runs → Touches db after
  inserted : (row : RunRow) → after.runs ≡ db.runs ++ row ∷ [] → Touches db after
  updated :
      (id : String) (change : RunRow → RunRow)
      → Rekeys change
      → ((r : RunRow) → (change r).version ≡ suc r.version)
      → after.runs ≡ update_rows id change db.runs
      → Touches db after

-- What every operation does: it keeps the invariant, it only adds events, and it raises versions.
pub record Preserves (host : Host) (db after : Database) : Type 0 where
  pub touches : Touches db after
  pub sound : IsSound host after.runs after.run_events
  pub extends : Extends db after

pub Extends-refl : (db : Database) → Extends db db
Extends-refl db = record { more = []; grown = sym (append-nil db.run_events) }

pub Extends-trans : (a b c : Database) → Extends a b → Extends b c → Extends a c
Extends-trans a b c first second = record {
  more = first.more ++ second.more;
  grown =
      second.grown
      ∙ ap (λ es. es ++ second.more) first.grown
      ∙ append_assoc a.run_events first.more second.more;
}

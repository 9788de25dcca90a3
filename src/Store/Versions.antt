-- ===== src/Store/Versions.antt =====
-- packages/db/src/store.ts: the version of a run is a fence. It rises with every change of the run,
-- so a guard that matched before matches later only while nothing has changed.
use lineageguard.Base.{
  ℕ, suc, ◌≡◌, refl, sym, ap, ◌∙◌, ◌⊎◌, inl, inr, ◌<◌, String, Bool, true, false, none, some, List,
  [], ◌∷◌, ◌++◌, ◌===◌, arith, Bool-cases, if◌then◌else◌,
}
use lineageguard.Base.Results.{returns}
use mathlib.Core.Path.{subst}
use mathlib.Core.List.{Memᴰ}
use mathlib.Core.List.Memᴰ
use lineageguard.Store.Rows.{Host, RunRow, Database, LeaseGuard, find_row, update_rows}
use lineageguard.Store.Agree.{Extends}
use lineageguard.Store.Leases.{holds_guard, lock_run_for_lease}
use lineageguard.Store.Sound.{Rekeys, Touches, untouched, inserted, updated}
use lineageguard.Store.Effects.{lock_run_for_lease-returns}
use lineageguard.Store.Claiming.{All-Memᴰ}
use lineageguard.Store.History.{History, committed, elsewhere, execute-Preserves}
use lineageguard.Store.Reached.{reached}

-- The same row, or a later version of it.
abbrev Newer : RunRow → RunRow → Type 0
Newer r s = (r ≡ s) ⊎ (r.version < s.version)

Newer-trans : (a b c : RunRow) → Newer a b → Newer b c → Newer a c
Newer-trans a b c (inl e) n = subst (λ x. Newer x c) (sym e) n
Newer-trans a b c (inr l) (inl e) = inr (subst (λ x. a.version < x.version) e l)
Newer-trans a b c (inr l) (inr m) = inr (omega arith)

-- The run is stored, in the same or a later version.
abbrev Follows : String → RunRow → Database → Type 0
Follows id r db = (s : RunRow) × (find_row id db.runs ≡ some s) × Newer r s

changed_row :
    (other : String) (change : RunRow → RunRow) (x : RunRow) (b : Bool)
    → Rekeys change
    → ((r : RunRow) → (change r).version ≡ suc r.version)
    → ((if b then change x else x).id ≡ x.id) × Newer x (if b then change x else x)
changed_row other change x true k b = (k x, inr (omega (arith, b x)))
changed_row other change x false k b = (refl, inl refl)

find_row-cons :
    (id : String) (y : RunRow) (i : String) (b : Bool) (ys : List RunRow)
    → y.id ≡ i
    → (i === id) ≡ b
    → find_row id (y ∷ ys) ≡ (if b then some y else find_row id ys)
find_row-cons id y i b ys k e =
    ap (λ j. if j === id then some y else find_row id ys) k
    ∙ ap (λ c. if c then some y else find_row id ys) e

find_row-update :
    (id other : String) (change : RunRow → RunRow) (runs : List RunRow) (r : RunRow)
    → Rekeys change
    → ((x : RunRow) → (change x).version ≡ suc x.version)
    → find_row id runs ≡ some r
    → (s : RunRow) × (find_row id (update_rows other change runs) ≡ some s) × Newer r s
find_row-update id other change [] r k b h = cc
find_row-update id other change (x ∷ xs) r k b h =
    let y = if x.id === other then change x else x in
    let ys = update_rows other change xs in
    let (key, newer) = changed_row other change x (x.id === other) k b in
    elim (Bool-cases (x.id === id)) [
      | inl e ↦
          let found : some x ≡ some r = rw e at h in
          (
            y,
            find_row-cons id y x.id true ys key e,
            subst (λ o. elim o [ none ↦ Unit {0} | some z ↦ Newer z y ]) found newer,
          )
      | inr e ↦
          let (s, f, n) = find_row-update id other change xs r k b (rw e at h) in
          (s, find_row-cons id y x.id false ys key e ∙ f, n)
    ]

find_row-snoc :
    (id : String) (runs : List RunRow) (row r : RunRow)
    → find_row id runs ≡ some r
    → find_row id (runs ++ row ∷ []) ≡ some r
find_row-snoc id [] row r h = cc
find_row-snoc id (x ∷ xs) row r h = elim (Bool-cases (x.id === id)) [
  | inl e ↦ let found : some x ≡ some r = rw e at h in rw e found
  | inr e ↦ rw e (find_row-snoc id xs row r (rw e at h))
]

Touches-Follows :
    (db after : Database) (id : String) (r : RunRow)
    → Touches db after
    → find_row id db.runs ≡ some r
    → Follows id r after
Touches-Follows db after id r (untouched e) h = (r, ap (find_row id) e ∙ h, inl refl)
Touches-Follows db after id r (inserted row e) h =
    (r, ap (find_row id) e ∙ find_row-snoc id db.runs row r h, inl refl)
Touches-Follows db after id r (updated other change k b e) h =
    let (s, f, n) = find_row-update id other change db.runs r k b h in
    (s, ap (find_row id) e ∙ f, n)

Follows-trans :
    (id : String) (r : RunRow) (db after : Database)
    → Follows id r db
    → ((s : RunRow) → find_row id db.runs ≡ some s → Follows id s after)
    → Follows id r after
Follows-trans id r db after (s, f, n) step =
    let (t, g, m) = step s f in (t, g, Newer-trans r s t n m)

module _ (host : Host) (id : String) (r : RunRow) where
  -- A run that was stored once is stored ever after, in the same or a later version.
  pub History-Follows :
      (db : Database) (past : List Database) (seen : Database)
      → History host (db ∷ past)
      → Memᴰ seen (db ∷ past)
      → find_row id seen.runs ≡ some r
      → Follows id r db
  History-Follows db [] seen h k f = elim (Memᴰ.cases_cons k) [
    | inl e ↦ (r, subst (λ d. find_row id d.runs ≡ some r) e f, inl refl)
    | inr l ↦ absurd (Memᴰ.not-nil l)
  ]
  History-Follows after (_ ∷ past) seen (committed c read _ db _ h m trip x) k f =
      elim (Memᴰ.cases_cons k) [
        | inl e ↦ (r, subst (λ d. find_row id d.runs ≡ some r) e f, inl refl)
        | inr l ↦
            let (sound, earlier) = reached host db past h in
            let ext = All-Memᴰ (λ s. Extends s db) (db ∷ past) earlier m in
            let p = execute-Preserves host read db after c ext sound trip x in
            Follows-trans id r db after (History-Follows db past seen h l f)
              (λ s. Touches-Follows db after id s p.touches)
      ]
  History-Follows after (_ ∷ past) seen (elsewhere _ db _ h e _) k f = elim (Memᴰ.cases_cons k) [
    | inl e' ↦ (r, subst (λ d. find_row id d.runs ≡ some r) e' f, inl refl)
    | inr l ↦
        Follows-trans id r db after (History-Follows db past seen h l f)
          (λ s. Touches-Follows db after id s (untouched e))
  ]

guard_version :
    (host : Host) (guard : LeaseGuard) (at : ℕ) (r : RunRow)
    → holds_guard host guard at r ≡ true
    → r.version ≡ guard.fencing_version
guard_version host guard at r h = ground arith

-- A guard that locked a run at some database of a history and locks it at the latest one finds the
-- same row: no transaction of the history (one that writes runs or events, or one that writes
-- neither) has changed the run in between.
pub lock_run_for_lease-unchanged :
    (host : Host) (db : Database) (past : List Database) (seen : Database) (id : String)
    (guard : LeaseGuard) (before at : ℕ) (r s : RunRow)
    → History host (db ∷ past)
    → Memᴰ seen (db ∷ past)
    → lock_run_for_lease host seen id guard before ≡ returns r
    → lock_run_for_lease host db id guard at ≡ returns s
    → r ≡ s
lock_run_for_lease-unchanged host db past seen id guard before at r s h m first second =
    let (f, held) = lock_run_for_lease-returns host seen id guard before r first in
    let (g, still) = lock_run_for_lease-returns host db id guard at s second in
    let (t, g2, newer) = History-Follows host id r db past seen h m f in
    let same : t ≡ s = ap (λ o. elim o [ none ↦ t | some x ↦ x ]) (sym g2 ∙ g) in
    elim newer [
      | inl e ↦ e ∙ same
      | inr l ↦ absurd (
          omega (
            arith,
            guard_version host guard before r held,
            guard_version host guard at s still,
            ap (λ x. x.version) same,
          ))
    ]

-- ===== src/Run/Life.antt =====
-- packages/domain/src/run.ts: `runEventStreamSchema` accepts exactly the lives of a run.
use lineageguard.Base.{◌≡◌, refl, ◌↔◌, ◌≤◌, String, true, List, [], ◌∷◌, ◌++◌, arith, length, all}
use lineageguard.Run.Events.{IsoTime, RunEvent, fence, event_shape}
use lineageguard.Run.Stream.{StreamState, start, advance, replay, is_none, stream_issues, is_stream}
use lineageguard.Run.Admission.{Trace, scan_iff}

module _ (iso : IsoTime) where
  -- From 1 to 300 events, each of a legal shape, that are admitted one after the other.
  abbrev pub IsLife : List RunEvent → Type 0
  IsLife [] = ⊥
  IsLife (e ∷ es) =
      (length (e ∷ es) ≤ 300)
      × (all (event_shape iso) (e ∷ es) ≡ true)
      × Trace iso (fence e).run_id start (e ∷ es)

  is_none_iff {ℓ} : {A : Type ℓ} (xs : List A) → (is_none xs ≡ true) ↔ (xs ≡ [])
  is_none_iff [] = (λ _. refl, λ _. refl)
  is_none_iff (x ∷ xs) = (λ h. cc, λ h. cc)

  pub is_stream_sound : (es : List RunEvent) → is_stream iso es ≡ true → IsLife es
  unfolding is_stream stream_issues
  is_stream_sound [] h = ground arith
  is_stream_sound (e ∷ es) h = (
    ground arith,
    ground arith,
    (scan_iff iso (fence e).run_id start (e ∷ es)).0
        ((is_none_iff (stream_issues iso (e ∷ es))).0 (ground arith)),
  )

  pub is_stream_complete : (es : List RunEvent) → IsLife es → is_stream iso es ≡ true
  unfolding is_stream stream_issues
  is_stream_complete [] h = absurd h
  is_stream_complete (e ∷ es) (short, shape, trace) =
      ground (arith, (is_none_iff _).1 ((scan_iff iso (fence e).run_id start (e ∷ es)).1 trace))

  pub Trace-append :
      (run_id : String) (s : StreamState) (xs ys : List RunEvent)
      → Trace iso run_id s (xs ++ ys) ↔ (Trace iso run_id s xs × Trace iso run_id (replay s xs) ys)
  unfolding replay
  Trace-append run_id s [] ys = (λ t. (tt, t), λ t. t.1)
  Trace-append run_id s (x ∷ xs) ys =
      let ih = Trace-append run_id (advance s x) xs ys in
      (λ t. ((t.0, t.1, (ih.0 t.2).0), (ih.0 t.2).1), λ t. (t.0.0, t.0.1, ih.1 (t.0.2, t.1)))

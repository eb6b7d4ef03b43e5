-- ===== src/Output/Stale.antt =====
-- A failed copy and a failed snapshot (internal/adapters/output/clipboard_autopaste.go).
use a2text.Base.{
  ℕ, suc, true, false, Bool-cases, Option-cases, none, some, [], ◌∷◌, Text, is_empty, ◌≡◌, refl,
  ◌∙◌, inl, inr, arith,
}
use a2text.Output.World.{
  Cause, canceled, deadline_exceeded, other, SnapshotAnswer-cases, failed, Effect, Trace, World,
  Autopaste,
}
use a2text.Output.Autopaste.{
  Outcome, no_snapshot, clipboard_deliver, restores, can_restore, consume_pre_snapshot,
  take_snapshot, press, after_paste, after_delivery, after_snapshot, paste_after_delay,
  maybe_restore, deliver,
}

-- The writes back of earlier content.
abbrev pub writes_back : Trace → ℕ
writes_back [] = 0
writes_back (Effect.copy_typed mime bytes ∷ rest) = suc (writes_back rest)
writes_back (_ ∷ rest) = writes_back rest

module _ (w : World) where
  take_snapshot_plain :
      (o : Autopaste) (tr : Trace)
      → o.has_snapshotter ≡ false
      → take_snapshot w o tr ≡ (no_snapshot, tr)
  unfolding take_snapshot
  take_snapshot_plain o tr plain = rw (take_snapshot, plain) refl

  clipboard_deliver_degraded :
      (tr : Trace) (text : Text) {e : Cause}
      → ((t : Trace) → w.ctx_err t ≡ none)
      → w.copy (Effect.copy text ∷ tr) ≡ some e
      → w.fallback (Effect.fallback text ∷ Effect.copy text ∷ tr) ≡ none
      → clipboard_deliver w tr text ≡ (none, Effect.fallback text ∷ Effect.copy text ∷ tr)
  unfolding clipboard_deliver
  clipboard_deliver_degraded tr text live fails falls =
      rw (clipboard_deliver, live, fails, live, falls) refl

  after_press_plain :
      (o : Autopaste) (tr : Trace) (text : Text)
      → o.has_snapshotter ≡ false
      → (after_paste w o text no_snapshot (press w tr)).1 ≡ Effect.paste ∷ tr
  unfolding press after_paste maybe_restore can_restore
  after_press_plain o tr text plain = elim (Option-cases (w.paste (Effect.paste ∷ tr))) [
    | inl h ↦ rw (press, h, after_paste, maybe_restore, can_restore, plain) refl
    | inr (canceled, h) ↦ rw (press, h, after_paste) refl
    | inr (deadline_exceeded, h) ↦ rw (press, h, after_paste) refl
    | inr (other e', h) ↦ rw (press, h, after_paste, maybe_restore, can_restore, plain) refl
  ]

  paste_after_delay_plain :
      (o : Autopaste) (tr : Trace) (text : Text)
      → o.has_snapshotter ≡ false
      → ((t : Trace) → w.wait t ≡ none)
      → paste_after_delay w o tr text ≡ press w (Effect.wait_paste ∷ tr)
  unfolding paste_after_delay
  paste_after_delay_plain o tr text plain fires = rw (paste_after_delay, fires, plain) refl

  -- The default wiring has no snapshotter. If then the copy fails under a live context, the fallback takes the text
  -- and the timer fires, the paste is sent although the copier has refused the text.
  pub deliver_pastes_stale :
      (o : Autopaste) (tr : Trace) (text : Text) {e : Cause}
      → o.has_snapshotter ≡ false
      → is_empty text ≡ false
      → ((t : Trace) → w.ctx_err t ≡ none)
      → w.copy (Effect.copy text ∷ tr) ≡ some e
      → w.fallback (Effect.fallback text ∷ Effect.copy text ∷ tr) ≡ none
      → ((t : Trace) → w.wait t ≡ none)
      → (deliver w o tr text).1.1
        ≡ Effect.paste ∷ Effect.wait_paste ∷ Effect.fallback text ∷ Effect.copy text ∷ tr
  unfolding deliver after_snapshot after_delivery
  deliver_pastes_stale o tr text plain some_text live fails falls fires =
      rw
        (
          deliver,
          live,
          some_text,
          take_snapshot_plain o tr plain,
          after_snapshot,
          clipboard_deliver_degraded tr text live fails falls,
          after_delivery,
          live,
          take_snapshot_plain o tr plain,
          paste_after_delay_plain o _ text plain fires,
        )
        (after_press_plain o _ text plain)

  press-writes_back : (tr : Trace) → writes_back (press w tr).1 ≡ writes_back tr
  unfolding press
  press-writes_back tr = elim (Option-cases (w.paste (Effect.paste ∷ tr))) [
    | inl h ↦ rw (press, h) refl
    | inr (canceled, h) ↦ rw (press, h) refl
    | inr (deadline_exceeded, h) ↦ rw (press, h) refl
    | inr (other e, h) ↦ rw (press, h) refl
  ]

  paste_after_delay-writes_back :
      (o : Autopaste) (tr : Trace) (text : Text)
      → writes_back (paste_after_delay w o tr text).1 ≡ writes_back tr
  unfolding paste_after_delay
  paste_after_delay-writes_back o tr text = elim (SnapshotAnswer-cases (w.snapshot tr2)) [
    | inl (s, a) ↦ ground (arith, press-writes_back tr1, press-writes_back tr2)
    | inr (e, a) ↦ ground (arith, press-writes_back tr1, press-writes_back tr2)
  ]
    where
      tr1 : Trace
      tr1 = Effect.wait_paste ∷ tr

      tr2 : Trace
      tr2 = Effect.snapshot ∷ tr1

  clipboard_deliver-writes_back :
      (tr : Trace) (text : Text) → writes_back (clipboard_deliver w tr text).1 ≡ writes_back tr
  unfolding clipboard_deliver
  clipboard_deliver-writes_back tr text = ground arith

  after_paste-writes_back :
      (o : Autopaste) (text : Text) (r : Outcome)
      → writes_back (after_paste w o text no_snapshot r).1 ≡ writes_back r.1
  unfolding after_paste maybe_restore can_restore
  after_paste-writes_back o text (some e, tr) = refl
  after_paste-writes_back o text (none, tr) = ground arith

  after_delivery-writes_back :
      (o : Autopaste) (text : Text) (r : Outcome)
      → writes_back (after_delivery w o text no_snapshot r).1 ≡ writes_back r.1
  unfolding after_delivery
  after_delivery-writes_back o text (some e, tr) = refl
  after_delivery-writes_back o text (none, tr) = elim (Option-cases (w.ctx_err tr)) [
    | inr (e, h) ↦ rw (after_delivery, h) refl
    | inl h ↦
        rw (after_delivery, h)
          (after_paste-writes_back o text (paste_after_delay w o tr text)
            ∙ paste_after_delay-writes_back o tr text)
  ]

  -- If the snapshot that `PreSnapshot` started has failed by the time of `Deliver`, no other one is taken in its place
  -- before the text is copied, and nothing is written back after the paste.
  pub deliver_after_failed_snapshot :
      (o : Autopaste) (tr : Trace) (text : Text) {e : Cause}
      → o.has_snapshotter ≡ true
      → o.has_restorer ≡ true
      → o.pending ≡ true
      → w.background (Effect.await_pre_snapshot ∷ tr) ≡ some (failed e)
      → (take_snapshot w o tr ≡ (no_snapshot, Effect.await_pre_snapshot ∷ tr))
        × (writes_back (deliver w o tr text).1.1 ≡ writes_back tr)
  unfolding deliver after_snapshot take_snapshot consume_pre_snapshot
  deliver_after_failed_snapshot o tr text reads writes waits fails = (dropped, kept)
    where
      restores_ok : restores o ≡ true
      restores_ok = ground arith

      dropped : take_snapshot w o tr ≡ (no_snapshot, Effect.await_pre_snapshot ∷ tr)
      dropped = rw (take_snapshot, restores_ok, consume_pre_snapshot, waits, fails) refl

      kept : writes_back (deliver w o tr text).1.1 ≡ writes_back tr
      kept = elim (Option-cases (w.ctx_err tr)) [
        | inr (e', h) ↦ rw (deliver, h) refl
        | inl h ↦ elim (Bool-cases (is_empty text)) [
          | inl b ↦ rw (deliver, h, b) refl
          | inr b ↦
              rw (deliver, h, b, dropped, after_snapshot)
                (after_delivery-writes_back o text
                    (clipboard_deliver w (Effect.await_pre_snapshot ∷ tr) text)
                  ∙ clipboard_deliver-writes_back (Effect.await_pre_snapshot ∷ tr) text)
        ]
      ]

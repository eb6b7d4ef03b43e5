-- ===== src/Output/Emitted.antt =====
-- What a result of `Deliver` that is no error tells (internal/adapters/output/clipboard_autopaste.go).
use a2text.Base.{false, Bool-cases, Option-cases, none, some, ◌∷◌, Text, is_empty, ◌≡◌, inl, inr}
use a2text.Output.World.{Snapshot, taken, failed, Effect, Trace, World, Autopaste}
use a2text.Output.Autopaste.{
  Outcome, clipboard_deliver, restores, consume_pre_snapshot, take_snapshot, after_paste,
  after_delivery, after_snapshot, paste_after_delay, deliver,
}
use a2text.Output.Results.{
  Extends, IsEmitted, IsEmitted-Extends, Emits, clipboard_deliver-Emits, paste_after_delay-Extends,
  maybe_restore-Extends,
}

module _ (w : World) where
  after_paste-Emits :
      (o : Autopaste) (text : Text) (prev : Snapshot) (before tr : Trace) (r : Outcome)
      → IsEmitted w text before tr
      → Extends tr r.1
      → Emits w text before (after_paste w o text prev r)
  unfolding after_paste
  after_paste-Emits o text prev before tr (some e, tr') m x = tt
  after_paste-Emits o text prev before tr (none, tr') m x =
      IsEmitted-Extends w (IsEmitted-Extends w m x) (maybe_restore-Extends w o tr' text prev)

  after_delivery-Emits :
      (o : Autopaste) (text : Text) (prev : Snapshot) (before : Trace) (r : Outcome)
      → Emits w text before r
      → Emits w text before (after_delivery w o text prev r)
  unfolding after_delivery
  after_delivery-Emits o text prev before (some e, tr) m = tt
  after_delivery-Emits o text prev before (none, tr) m = elim (Option-cases (w.ctx_err tr)) [
    | inr (e, h) ↦ rw (after_delivery, h) tt
    | inl h ↦
        rw (after_delivery, h)
          (after_paste-Emits o text prev before tr (paste_after_delay w o tr text) m
            (paste_after_delay-Extends w o tr text))
  ]

  take_snapshot-Extends : (o : Autopaste) (tr : Trace) → Extends tr (take_snapshot w o tr).1
  unfolding take_snapshot consume_pre_snapshot
  take_snapshot-Extends o tr = elim (Bool-cases (restores o)) [
    | inr r ↦ rw (take_snapshot, r) Extends.same
    | inl r ↦ elim (Bool-cases o.pending) [
      | inr p ↦ rw (take_snapshot, r, consume_pre_snapshot, p) one
      | inl p ↦ elim (Option-cases (w.background (Effect.await_pre_snapshot ∷ tr))) [
        | inl b ↦ rw (take_snapshot, r, consume_pre_snapshot, p, b) (Extends.more one)
        | inr (taken s, b) ↦ rw (take_snapshot, r, consume_pre_snapshot, p, b) one
        | inr (failed e, b) ↦ rw (take_snapshot, r, consume_pre_snapshot, p, b) one
      ]
    ]
  ]
    where
      one : {e : Effect} → Extends tr (e ∷ tr)
      one = Extends.more Extends.same

  -- If `Deliver` returns no error for a text that is not empty, then within this call the copier or the fallback has
  -- accepted that text.
  pub deliver-Emits :
      (o : Autopaste) (tr : Trace) (text : Text)
      → is_empty text ≡ false
      → Emits w text tr (deliver w o tr text).1
  unfolding deliver after_snapshot
  deliver-Emits o tr text some_text = elim (Option-cases (w.ctx_err tr)) [
    | inr (e, h) ↦ rw (deliver, h) tt
    | inl h ↦
        rw (deliver, h, some_text, after_snapshot)
          (after_delivery-Emits o text (take_snapshot w o tr).0 tr
            (clipboard_deliver w (take_snapshot w o tr).1 text)
            (clipboard_deliver-Emits w (take_snapshot w o tr).1 text tr
              (take_snapshot-Extends o tr)))
  ]

-- ===== src/Output/Guard.antt =====
-- The two race guards of internal/adapters/output/clipboard_autopaste.go: what is known of the clipboard when the
-- paste is sent, and when the earlier content is written back.
use a2text.Base.{
  true, false, Bool-cases, Option, Option-cases, none, some, [], ◌∷◌, Text, is_empty, same_text,
  same_text-eq, ◌≡◌, refl, sym, ap, ◌∙◌, ◌⊎◌, inl, inr, arith,
}
use a2text.Output.World.{
  Cause, canceled, deadline_exceeded, other, Snapshot, SnapshotAnswer-cases, taken, failed, Effect,
  Trace, World, Autopaste,
}
use a2text.Output.Autopaste.{
  Outcome, clipboard_deliver, same_as_transcript, restores, can_restore, pre_snapshot,
  consume_pre_snapshot, take_snapshot, press, after_paste, after_delivery, after_snapshot,
  paste_after_delay, maybe_restore, deliver,
}

-- The text that the copier was last given.
abbrev pub last_copied : Trace → Option Text
last_copied [] = none
last_copied (Effect.copy t ∷ tr) = some t
last_copied (_ ∷ tr) = last_copied tr

same_as_transcript-eq :
    (s : Snapshot) (t : Text) → same_as_transcript s t ≡ true → (s.empty ≡ false) × (s.bytes ≡ t)
unfolding same_as_transcript
same_as_transcript-eq s t h = (ground arith, same_text-eq s.bytes t (ground arith))

can_restore-some :
    (o : Autopaste) (prev : Snapshot)
    → can_restore o prev ≡ true
    → (is_empty prev.mime ≡ false) × (is_empty prev.bytes ≡ false)
unfolding can_restore
can_restore-some o prev h = ground arith

module _ (w : World) where
  -- The trace ends with a read of the clipboard that failed or gave the text last copied.
  abbrev pub IsChecked : Trace → Type 0
  IsChecked (Effect.snapshot ∷ tr) =
      ((e : Cause) × (w.snapshot (Effect.snapshot ∷ tr) ≡ failed e))
      ⊎ ((s : Snapshot) × (w.snapshot (Effect.snapshot ∷ tr) ≡ taken s)
          × (last_copied tr ≡ some s.bytes))
  IsChecked _ = ⊥

  -- The trace ends with a read of the clipboard that gave the text last copied.
  abbrev pub IsHeld : Trace → Type 0
  IsHeld (Effect.snapshot ∷ tr) =
      (s : Snapshot) × (w.snapshot (Effect.snapshot ∷ tr) ≡ taken s)
      × (s.empty ≡ false)
      × (last_copied tr ≡ some s.bytes)
  IsHeld _ = ⊥

  -- Each paste was checked, and each write back found the text and wrote something.
  abbrev pub IsGuarded : Trace → Type 0
  IsGuarded [] = Unit
  IsGuarded (Effect.paste ∷ tr) = IsChecked tr × IsGuarded tr
  IsGuarded (Effect.copy_typed mime bytes ∷ tr) =
      IsHeld tr × (is_empty mime ≡ false) × (is_empty bytes ≡ false) × IsGuarded tr
  IsGuarded (_ ∷ tr) = IsGuarded tr

  abbrev After : Text → Outcome → Type 0
  After text (none, tr) = IsGuarded tr × (last_copied tr ≡ some text)
  After text (some e, tr) = IsGuarded tr

  clipboard_deliver-After :
      (tr : Trace) (text : Text) → IsGuarded tr → After text (clipboard_deliver w tr text)
  unfolding clipboard_deliver
  clipboard_deliver-After tr text g = elim (Option-cases (w.ctx_err tr)) [
    | inr (e, h) ↦ rw (clipboard_deliver, h) g
    | inl h ↦ elim (Option-cases (w.copy (Effect.copy text ∷ tr))) [
      | inl c ↦ rw (clipboard_deliver, h, c) (g, refl)
      | inr (e, c) ↦ elim (Option-cases (w.ctx_err (Effect.copy text ∷ tr))) [
        | inr (e', h') ↦ rw (clipboard_deliver, h, c, h') g
        | inl h' ↦ elim (Option-cases (w.fallback (Effect.fallback text ∷ Effect.copy text ∷ tr))) [
          | inl f ↦ rw (clipboard_deliver, h, c, h', f) (g, refl)
          | inr (e', f) ↦ rw (clipboard_deliver, h, c, h', f) g
        ]
      ]
    ]
  ]

  press-After :
      (tr : Trace) (text : Text)
      → IsGuarded (Effect.paste ∷ tr)
      → last_copied tr ≡ some text
      → After text (press w tr)
  unfolding press
  press-After tr text g c = elim (Option-cases (w.paste (Effect.paste ∷ tr))) [
    | inl h ↦ rw (press, h) (g, c)
    | inr (canceled, h) ↦ rw (press, h) g
    | inr (deadline_exceeded, h) ↦ rw (press, h) g
    | inr (other e, h) ↦ rw (press, h) (g, c)
  ]

  paste_after_delay-After :
      (o : Autopaste) (tr : Trace) (text : Text)
      → o.has_snapshotter ≡ true
      → IsGuarded tr
      → last_copied tr ≡ some text
      → After text (paste_after_delay w o tr text)
  unfolding paste_after_delay
  paste_after_delay-After o tr text wired g c = elim (Option-cases (w.wait tr1)) [
    | inr (e, h) ↦ rw (paste_after_delay, h) g
    | inl h ↦ elim (SnapshotAnswer-cases (w.snapshot tr2)) [
      | inr (e, a) ↦ rw (paste_after_delay, h, wired, a) (press-After tr2 text (inl (e, a), g) c)
      | inl (s, a) ↦ elim (Bool-cases (same_text s.bytes text)) [
        | inr d ↦ rw (paste_after_delay, h, wired, a, d) g
        | inl d ↦
            rw (paste_after_delay, h, wired, a, d)
              (press-After tr2 text (inr (s, a, c ∙ ap some (sym (same_text-eq s.bytes text d))), g)
                c)
      ]
    ]
  ]
    where
      tr1 : Trace
      tr1 = Effect.wait_paste ∷ tr

      tr2 : Trace
      tr2 = Effect.snapshot ∷ tr1

  maybe_restore-IsGuarded :
      (o : Autopaste) (tr : Trace) (text : Text) (prev : Snapshot)
      → IsGuarded tr
      → last_copied tr ≡ some text
      → IsGuarded (maybe_restore w o tr text prev)
  unfolding maybe_restore
  maybe_restore-IsGuarded o tr text prev g c = elim (Bool-cases (can_restore o prev)) [
    | inr b ↦ rw (maybe_restore, b) g
    | inl b ↦ elim (Option-cases (w.wait tr1)) [
      | inr (e, h) ↦ rw (maybe_restore, b, h) g
      | inl h ↦ elim (SnapshotAnswer-cases (w.snapshot tr2)) [
        | inr (e, a) ↦ rw (maybe_restore, b, h, a) g
        | inl (s, a) ↦ elim (Bool-cases (same_as_transcript s text)) [
          | inr d ↦ rw (maybe_restore, b, h, a, d) g
          | inl d ↦
              let (shown, same) = same_as_transcript-eq s text d in
              let (mime, bytes) = can_restore-some o prev b in
              rw (maybe_restore, b, h, a, d) ((s, a, shown, c ∙ ap some (sym same)), mime, bytes, g)
        ]
      ]
    ]
  ]
    where
      tr1 : Trace
      tr1 = Effect.wait_restore ∷ tr

      tr2 : Trace
      tr2 = Effect.snapshot ∷ tr1

  after_paste-IsGuarded :
      (o : Autopaste) (text : Text) (prev : Snapshot) (r : Outcome)
      → After text r
      → IsGuarded (after_paste w o text prev r).1
  unfolding after_paste
  after_paste-IsGuarded o text prev (some e, tr) g = g
  after_paste-IsGuarded o text prev (none, tr) (g, c) = maybe_restore-IsGuarded o tr text prev g c

  after_delivery-IsGuarded :
      (o : Autopaste) (text : Text) (prev : Snapshot) (r : Outcome)
      → o.has_snapshotter ≡ true
      → After text r
      → IsGuarded (after_delivery w o text prev r).1
  unfolding after_delivery
  after_delivery-IsGuarded o text prev (some e, tr) wired g = g
  after_delivery-IsGuarded o text prev (none, tr) wired (g, c) =
      elim (Option-cases (w.ctx_err tr)) [
        | inr (e, h) ↦ rw (after_delivery, h) g
        | inl h ↦
            rw (after_delivery, h)
              (after_paste-IsGuarded o text prev (paste_after_delay w o tr text)
                (paste_after_delay-After o tr text wired g c))
      ]

  take_snapshot-IsGuarded :
      (o : Autopaste) (tr : Trace) → IsGuarded tr → IsGuarded (take_snapshot w o tr).1
  unfolding take_snapshot consume_pre_snapshot
  take_snapshot-IsGuarded o tr g = elim (Bool-cases (restores o)) [
    | inr r ↦ rw (take_snapshot, r) g
    | inl r ↦ elim (Bool-cases o.pending) [
      | inr p ↦ rw (take_snapshot, r, consume_pre_snapshot, p) g
      | inl p ↦ elim (Option-cases (w.background (Effect.await_pre_snapshot ∷ tr))) [
        | inl b ↦ rw (take_snapshot, r, consume_pre_snapshot, p, b) g
        | inr (taken s, b) ↦ rw (take_snapshot, r, consume_pre_snapshot, p, b) g
        | inr (failed e, b) ↦ rw (take_snapshot, r, consume_pre_snapshot, p, b) g
      ]
    ]
  ]

  -- With a snapshotter wired, and from a trace where this held: the paste is sent only right after a read of the
  -- clipboard that failed or gave the text last copied, and earlier content is written back only right after a read
  -- that gave that text, and only if it has a type and is not empty.
  pub deliver-IsGuarded :
      (o : Autopaste) (tr : Trace) (text : Text)
      → o.has_snapshotter ≡ true
      → IsGuarded tr
      → IsGuarded (deliver w o tr text).1.1
  unfolding deliver after_snapshot
  deliver-IsGuarded o tr text wired g = elim (Option-cases (w.ctx_err tr)) [
    | inr (e, h) ↦ rw (deliver, h) g
    | inl h ↦ elim (Bool-cases (is_empty text)) [
      | inl e ↦ rw (deliver, h, e) g
      | inr e ↦
          rw (deliver, h, e, after_snapshot)
            (after_delivery-IsGuarded o text (take_snapshot w o tr).0
              (clipboard_deliver w (take_snapshot w o tr).1 text) wired
              (clipboard_deliver-After (take_snapshot w o tr).1 text
                (take_snapshot-IsGuarded o tr g)))
    ]
  ]

  pub pre_snapshot-IsGuarded :
      (o : Autopaste) (tr : Trace) → IsGuarded tr → IsGuarded (pre_snapshot o tr).1
  unfolding pre_snapshot
  pre_snapshot-IsGuarded o tr g = elim (Bool-cases (restores o)) [
    | inl r ↦ rw (pre_snapshot, r) g
    | inr r ↦ rw (pre_snapshot, r) g
  ]

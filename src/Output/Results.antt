-- ===== src/Output/Results.antt =====
-- The trace of each part of `Deliver` only grows, and what the clipboard output promises of a text
-- (internal/adapters/output/clipboard.go and clipboard_autopaste.go).
use a2text.Base.{Bool-cases, Option-cases, none, some, ◌∷◌, Text, same_text, ◌≡◌, inl, inr}
use a2text.Output.World.{
  canceled, deadline_exceeded, other, Snapshot, SnapshotAnswer-cases, Effect, Trace, World,
  Autopaste,
}
use a2text.Output.Autopaste.{
  Outcome, clipboard_deliver, same_as_transcript, can_restore, press, paste_after_delay,
  maybe_restore,
}

-- A trace that begins with an earlier one.
pub data Extends (before : Trace) : Trace → Type 0 where
  same : Extends before before
  more : {e : Effect} {tr : Trace} → Extends before tr → Extends before (e ∷ tr)

pub Extends-trans : {a b c : Trace} → Extends a b → Extends b c → Extends a c
Extends-trans f Extends.same = f
Extends-trans f (Extends.more g) = Extends.more (Extends-trans f g)

module _ (w : World) where
  -- The copier or the fallback has accepted the text, after the earlier trace.
  pub data IsEmitted (text : Text) (before : Trace) : Trace → Type 0 where
    copied :
        {tr : Trace}
        → Extends before tr
        → w.copy (Effect.copy text ∷ tr) ≡ none
        → IsEmitted text before (Effect.copy text ∷ tr)
    fell_back :
        {tr : Trace}
        → Extends before tr
        → w.fallback (Effect.fallback text ∷ tr) ≡ none
        → IsEmitted text before (Effect.fallback text ∷ tr)
    earlier : {e : Effect} {tr : Trace} → IsEmitted text before tr → IsEmitted text before (e ∷ tr)

  pub IsEmitted-Extends :
      {text : Text} {before a b : Trace}
      → IsEmitted text before a
      → Extends a b
      → IsEmitted text before b
  IsEmitted-Extends h Extends.same = h
  IsEmitted-Extends h (Extends.more g) = IsEmitted.earlier (IsEmitted-Extends h g)

  -- A result that is no error comes with the text emitted.
  abbrev pub Emits : Text → Trace → Outcome → Type 0
  Emits text before (none, tr) = IsEmitted text before tr
  Emits text before (some e, tr) = Unit

  pub clipboard_deliver-Emits :
      (tr : Trace) (text : Text) (before : Trace)
      → Extends before tr
      → Emits text before (clipboard_deliver w tr text)
  unfolding clipboard_deliver
  clipboard_deliver-Emits tr text before x = elim (Option-cases (w.ctx_err tr)) [
    | inr (e, h) ↦ rw (clipboard_deliver, h) tt
    | inl h ↦ elim (Option-cases (w.copy (Effect.copy text ∷ tr))) [
      | inl c ↦ rw (clipboard_deliver, h, c) (IsEmitted.copied x c)
      | inr (e, c) ↦ elim (Option-cases (w.ctx_err (Effect.copy text ∷ tr))) [
        | inr (e', h') ↦ rw (clipboard_deliver, h, c, h') tt
        | inl h' ↦ elim (Option-cases (w.fallback (Effect.fallback text ∷ Effect.copy text ∷ tr))) [
          | inl f ↦ rw (clipboard_deliver, h, c, h', f) (IsEmitted.fell_back (Extends.more x) f)
          | inr (e', f) ↦ rw (clipboard_deliver, h, c, h', f) tt
        ]
      ]
    ]
  ]

  pub press-Extends : (tr : Trace) → Extends tr (press w tr).1
  unfolding press
  press-Extends tr = elim (Option-cases (w.paste (Effect.paste ∷ tr))) [
    | inl h ↦ rw (press, h) (Extends.more Extends.same)
    | inr (canceled, h) ↦ rw (press, h) (Extends.more Extends.same)
    | inr (deadline_exceeded, h) ↦ rw (press, h) (Extends.more Extends.same)
    | inr (other e, h) ↦ rw (press, h) (Extends.more Extends.same)
  ]

  pub paste_after_delay-Extends :
      (o : Autopaste) (tr : Trace) (text : Text) → Extends tr (paste_after_delay w o tr text).1
  unfolding paste_after_delay
  paste_after_delay-Extends o tr text = elim (Option-cases (w.wait tr1)) [
    | inr (e, h) ↦ rw (paste_after_delay, h) one
    | inl h ↦ elim (Bool-cases o.has_snapshotter) [
      | inr plain ↦ rw (paste_after_delay, h, plain) (Extends-trans one (press-Extends tr1))
      | inl wired ↦ elim (SnapshotAnswer-cases (w.snapshot tr2)) [
        | inr (e, a) ↦
            rw (paste_after_delay, h, wired, a)
              (Extends-trans (Extends.more one) (press-Extends tr2))
        | inl (s, a) ↦ elim (Bool-cases (same_text s.bytes text)) [
          | inr d ↦ rw (paste_after_delay, h, wired, a, d) (Extends.more one)
          | inl d ↦
              rw (paste_after_delay, h, wired, a, d)
                (Extends-trans (Extends.more one) (press-Extends tr2))
        ]
      ]
    ]
  ]
    where
      tr1 : Trace
      tr1 = Effect.wait_paste ∷ tr

      tr2 : Trace
      tr2 = Effect.snapshot ∷ tr1

      one : Extends tr tr1
      one = Extends.more Extends.same

  pub maybe_restore-Extends :
      (o : Autopaste) (tr : Trace) (text : Text) (prev : Snapshot)
      → Extends tr (maybe_restore w o tr text prev)
  unfolding maybe_restore
  maybe_restore-Extends o tr text prev = elim (Bool-cases (can_restore o prev)) [
    | inr b ↦ rw (maybe_restore, b) Extends.same
    | inl b ↦ elim (Option-cases (w.wait tr1)) [
      | inr (e, h) ↦ rw (maybe_restore, b, h) (Extends.more Extends.same)
      | inl h ↦ elim (SnapshotAnswer-cases (w.snapshot (Effect.snapshot ∷ tr1))) [
        | inr (e, a) ↦ rw (maybe_restore, b, h, a) (Extends.more (Extends.more Extends.same))
        | inl (s, a) ↦ elim (Bool-cases (same_as_transcript s text)) [
          | inr d ↦ rw (maybe_restore, b, h, a, d) (Extends.more (Extends.more Extends.same))
          | inl d ↦
              rw (maybe_restore, b, h, a, d)
                (Extends.more (Extends.more (Extends.more Extends.same)))
        ]
      ]
    ]
  ]
    where
      tr1 : Trace
      tr1 = Effect.wait_restore ∷ tr

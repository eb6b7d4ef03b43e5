-- ===== src/Output/Autopaste.antt =====
-- `ClipboardOutput.Deliver` (internal/adapters/output/clipboard.go) and `ClipboardAutopasteOutput`
-- (internal/adapters/output/clipboard_autopaste.go), whose delivery is that output, as the factory wires them.
use a2text.Base.{
  Bool, true, false, not, ◌&&◌, ◌||◌, Option, none, some, [], ◌∷◌, Text, is_empty, same_text, ◌*◌,
  ◌^◌, if◌then◌else◌,
}
use a2text.Base.Int.{ℤ, pos, ltb_ℤ}
use a2text.Output.World.{
  Cause, canceled, deadline_exceeded, other, OutputError, context_done, both_failed, raced,
  paste_cancelled, Snapshot, SnapshotAnswer, taken, failed, Effect, Trace, World, Autopaste,
}

-- A result with the trace after the call.
abbrev pub Outcome : Type 0
Outcome = Option OutputError × Trace

abbrev pub default_paste_delay : ℤ
default_paste_delay = pos (50 * 10 ^ 6)

unfoldable pub new_clipboard_autopaste_output : ℤ → Autopaste
new_clipboard_autopaste_output delay = record {
  has_snapshotter = false;
  has_restorer = false;
  delay = if ltb_ℤ (pos 0) delay then delay else default_paste_delay;
  pending = false;
}

-- `WithClipboardRestore`, by whether its two arguments are given.
unfoldable pub with_clipboard_restore : Bool → Bool → Autopaste → Autopaste
with_clipboard_restore snap restorer o =
    if snap && restorer
    then record o { has_snapshotter = true; has_restorer = true; pending = false }
    else o

abbrev pub no_snapshot : Snapshot
no_snapshot = record { mime = []; bytes = []; empty = false }

-- `sameAsTranscript`
unfoldable pub same_as_transcript : Snapshot → Text → Bool
same_as_transcript s t = if s.empty then false else same_text s.bytes t

abbrev pub restores : Autopaste → Bool
restores o = o.has_snapshotter && o.has_restorer

unfoldable pub can_restore : Autopaste → Snapshot → Bool
can_restore o prev =
    if not (restores o)
    then false
    else if prev.empty || is_empty prev.mime || is_empty prev.bytes
    then false
    else true

-- `PreSnapshot`
unfoldable pub pre_snapshot : Autopaste → Trace → Autopaste × Trace
pre_snapshot o tr =
    if restores o then (record o { pending = true }, Effect.start_pre_snapshot ∷ tr) else (o, tr)

module _ (w : World) where
  after_fallback : Trace → Cause → Option Cause → Outcome
  after_fallback tr first none = (none, tr)
  after_fallback tr first (some e) = (some (both_failed first e), tr)

  before_fallback : Trace → Text → Cause → Option Cause → Outcome
  unfolding after_fallback
  before_fallback tr text first (some e) = (some (context_done e), tr)
  before_fallback tr text first none =
      let tr' = Effect.fallback text ∷ tr in after_fallback tr' first (w.fallback tr')

  after_copy : Trace → Text → Option Cause → Outcome
  unfolding before_fallback
  after_copy tr text none = (none, tr)
  after_copy tr text (some e) = before_fallback tr text e (w.ctx_err tr)

  before_copy : Trace → Text → Option Cause → Outcome
  unfolding after_copy
  before_copy tr text (some e) = (some (context_done e), tr)
  before_copy tr text none = let tr' = Effect.copy text ∷ tr in after_copy tr' text (w.copy tr')

  -- `ClipboardOutput.Deliver`
  unfoldable pub clipboard_deliver : Trace → Text → Outcome
  unfolding before_copy
  clipboard_deliver tr text = before_copy tr text (w.ctx_err tr)

  -- What the goroutine sends, or nothing within the grace.
  sent : Option SnapshotAnswer → Option Snapshot
  sent none = none
  sent (some (taken s)) = some s
  sent (some (failed e)) = some no_snapshot

  -- `consumePreSnapshot`, but for its clearing of `preSnap`.
  unfoldable pub consume_pre_snapshot : Autopaste → Trace → Option Snapshot × Trace
  unfolding sent
  consume_pre_snapshot o tr =
      if o.pending
      then (let tr' = Effect.await_pre_snapshot ∷ tr in (sent (w.background tr'), tr'))
      else (none, tr)

  or_none : SnapshotAnswer → Snapshot
  or_none (taken s) = s
  or_none (failed e) = no_snapshot

  or_synchronous : Option Snapshot × Trace → Snapshot × Trace
  unfolding or_none
  or_synchronous (some s, tr) = (s, tr)
  or_synchronous (none, tr) = let tr' = Effect.snapshot ∷ tr in (or_none (w.snapshot tr'), tr')

  unfoldable pub take_snapshot : Autopaste → Trace → Snapshot × Trace
  unfolding consume_pre_snapshot or_synchronous
  take_snapshot o tr =
      if restores o then or_synchronous (consume_pre_snapshot o tr) else (no_snapshot, tr)

  pasted : Trace → Option Cause → Outcome
  pasted tr none = (none, tr)
  pasted tr (some canceled) = (some (paste_cancelled canceled), tr)
  pasted tr (some deadline_exceeded) = (some (paste_cancelled deadline_exceeded), tr)
  pasted tr (some (other e)) = (none, tr)

  unfoldable pub press : Trace → Outcome
  unfolding pasted
  press tr = let tr' = Effect.paste ∷ tr in pasted tr' (w.paste tr')

  checked : Trace → Text → SnapshotAnswer → Outcome
  unfolding press
  checked tr text (failed e) = press tr
  checked tr text (taken s) = if not (same_text s.bytes text) then (some raced, tr) else press tr

  waited : Autopaste → Trace → Text → Option Cause → Outcome
  unfolding checked press
  waited o tr text (some e) = (some (context_done e), tr)
  waited o tr text none =
      if o.has_snapshotter
      then (let tr' = Effect.snapshot ∷ tr in checked tr' text (w.snapshot tr'))
      else press tr

  -- The delay is the world's to wait for.
  unfoldable pub paste_after_delay : Autopaste → Trace → Text → Outcome
  unfolding waited
  paste_after_delay o tr text = let tr' = Effect.wait_paste ∷ tr in waited o tr' text (w.wait tr')

  -- `guardClipboard` and `runRestore`
  guarded : Trace → Text → Snapshot → SnapshotAnswer → Trace
  guarded tr text prev (failed e) = tr
  guarded tr text prev (taken s) =
      if same_as_transcript s text then Effect.copy_typed prev.mime prev.bytes ∷ tr else tr

  after_restore_delay : Trace → Text → Snapshot → Option Cause → Trace
  unfolding guarded
  after_restore_delay tr text prev (some e) = tr
  after_restore_delay tr text prev none =
      let tr' = Effect.snapshot ∷ tr in guarded tr' text prev (w.snapshot tr')

  unfoldable pub maybe_restore : Autopaste → Trace → Text → Snapshot → Trace
  unfolding after_restore_delay
  maybe_restore o tr text prev =
      if can_restore o prev
      then (let tr' = Effect.wait_restore ∷ tr in after_restore_delay tr' text prev (w.wait tr'))
      else tr

  unfoldable pub after_paste : Autopaste → Text → Snapshot → Outcome → Outcome
  unfolding maybe_restore
  after_paste o text prev (some e, tr) = (some e, tr)
  after_paste o text prev (none, tr) = (none, maybe_restore o tr text prev)

  still_live : Autopaste → Trace → Text → Snapshot → Option Cause → Outcome
  unfolding after_paste
  still_live o tr text prev (some e) = (some (context_done e), tr)
  still_live o tr text prev none = after_paste o text prev (paste_after_delay o tr text)

  unfoldable pub after_delivery : Autopaste → Text → Snapshot → Outcome → Outcome
  unfolding still_live
  after_delivery o text prev (some e, tr) = (some e, tr)
  after_delivery o text prev (none, tr) = still_live o tr text prev (w.ctx_err tr)

  unfoldable pub after_snapshot : Autopaste → Text → Snapshot × Trace → Outcome
  unfolding after_delivery
  after_snapshot o text (prev, tr) = after_delivery o text prev (clipboard_deliver tr text)

  delivered : Autopaste → Trace → Text → Option Cause → Autopaste × Outcome
  unfolding after_snapshot
  delivered o tr text (some e) = (o, (some (context_done e), tr))
  delivered o tr text none = if is_empty text then (o, (none, tr)) else (
    if restores o then record o { pending = false } else o,
    after_snapshot o text (take_snapshot o tr),
  )

  -- `ClipboardAutopasteOutput.Deliver`
  unfoldable pub deliver : Autopaste → Trace → Text → Autopaste × Outcome
  unfolding delivered
  deliver o tr text = delivered o tr text (w.ctx_err tr)

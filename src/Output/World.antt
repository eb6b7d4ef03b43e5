-- ===== src/Output/World.antt =====
-- What the outputs of internal/adapters/output call and do. Their effects are logged in a trace, the latest first; the
-- clipboard, the fallback, the keystroke, the timers and the context answer each call as a function of the trace up to
-- that call, so that they may answer differently each time.
use a2text.Base.{Bool, Option, List, Text, String, ◌≡◌, refl, ◌⊎◌, inl, inr}
use a2text.Base.Int.{ℤ}

-- An error, as far as `errors.Is` compares it.
pub data Cause : Type 0 where
  canceled deadline_exceeded : Cause
  other : String → Cause

-- The errors of `Deliver`.
pub data OutputError : Type 0 where
  context_done : Cause → OutputError
  both_failed : Cause → Cause → OutputError
  raced : OutputError
  paste_cancelled : Cause → OutputError

-- `ClipboardSnapshot`
pub record Snapshot : Type 0 where
  pub mime : Text
  pub bytes : Text
  pub empty : Bool

pub data SnapshotAnswer : Type 0 where
  taken : Snapshot → SnapshotAnswer
  failed : Cause → SnapshotAnswer

pub SnapshotAnswer-cases :
    (a : SnapshotAnswer) → ((s : Snapshot) × (a ≡ taken s)) ⊎ ((e : Cause) × (a ≡ failed e))
SnapshotAnswer-cases (taken s) = inl (s, refl)
SnapshotAnswer-cases (failed e) = inr (e, refl)

pub data Effect : Type 0 where
  copy fallback : Text → Effect
  snapshot start_pre_snapshot await_pre_snapshot : Effect
  wait_paste wait_restore paste : Effect
  copy_typed : Text → Text → Effect

abbrev pub Trace : Type 0
Trace = List Effect

-- The answers. `wait` is none if the timer fires before the context ends. `background` is what the goroutine's
-- snapshot gave, if it ended within the wait grace.
pub record World : Type 0 where
  pub ctx_err : Trace → Option Cause
  pub copy : Trace → Option Cause
  pub fallback : Trace → Option Cause
  pub snapshot : Trace → SnapshotAnswer
  pub background : Trace → Option SnapshotAnswer
  pub wait : Trace → Option Cause
  pub paste : Trace → Option Cause
  pub copy_typed : Trace → Option Cause

-- `ClipboardAutopasteOutput`: whether the two optional parts are wired, the delay, and whether a snapshot that
-- `PreSnapshot` has started is pending.
pub record Autopaste : Type 0 where
  pub has_snapshotter : Bool
  pub has_restorer : Bool
  pub delay : ℤ
  pub pending : Bool

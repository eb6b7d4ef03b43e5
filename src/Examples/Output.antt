-- ===== src/Examples/Output.antt =====
-- Deliveries with concrete clipboards, and the theorems at concrete inputs.
use a2text.Base.{true, false, Option, none, some, [], ◌∷◌, Text, codes, same_text, ◌≡◌, refl}
use a2text.Base.Int.{pos}
use a2text.Output.World.{Cause, other, Snapshot, taken, failed, Effect, Trace, World, Autopaste}
use a2text.Output.Autopaste.{
  clipboard_deliver, take_snapshot, consume_pre_snapshot, can_restore, same_as_transcript, press,
  after_paste, after_delivery, after_snapshot, paste_after_delay, maybe_restore, deliver,
  new_clipboard_autopaste_output, with_clipboard_restore,
}
use a2text.Output.Guard.{IsGuarded, deliver-IsGuarded}
use a2text.Output.Results.{IsEmitted}
use a2text.Output.Emitted.{deliver-Emits}
use a2text.Output.Stale.{deliver_pastes_stale}
use a2text.Output.Builder.{Choice, Host}

abbrev hello : Text
hello = codes "hello"

abbrev fine : Trace → Option Cause
fine tr = none

-- The clipboard as the copies leave it, with a picture in it at first.
abbrev clipboard_of : Trace → Snapshot
clipboard_of [] = record { mime = codes "image/png"; bytes = 137 ∷ 80 ∷ []; empty = false }
clipboard_of (Effect.copy t ∷ tr) = record { mime = codes "text/plain"; bytes = t; empty = false }
clipboard_of (Effect.copy_typed m b ∷ tr) = record { mime = m; bytes = b; empty = false }
clipboard_of (_ ∷ tr) = clipboard_of tr

abbrev quiet : World
quiet = record {
  ctx_err = fine;
  copy = fine;
  fallback = fine;
  snapshot = λ tr. taken (clipboard_of tr);
  background = λ tr. some (taken (clipboard_of tr));
  wait = fine;
  paste = fine;
  copy_typed = fine;
}

abbrev restoring : Autopaste
restoring = with_clipboard_restore true true (new_clipboard_autopaste_output (pos 0))

-- The text is pasted, and the picture is written back.
pasted_and_restored : (deliver quiet restoring [] hello).1 ≡ (
  none,
  Effect.copy_typed (codes "image/png") (137 ∷ 80 ∷ [])
      ∷ Effect.snapshot
      ∷ Effect.wait_restore
      ∷ Effect.paste
      ∷ Effect.snapshot
      ∷ Effect.wait_paste
      ∷ Effect.copy hello
      ∷ Effect.snapshot
      ∷ [],
)
unfolding deliver after_snapshot take_snapshot consume_pre_snapshot clipboard_deliver after_delivery
    paste_after_delay press after_paste maybe_restore can_restore same_as_transcript same_text
    with_clipboard_restore new_clipboard_autopaste_output
pasted_and_restored = refl

deliver-IsGuarded_example : IsGuarded quiet (deliver quiet restoring [] hello).1.1
unfolding with_clipboard_restore
deliver-IsGuarded_example = deliver-IsGuarded quiet restoring [] hello refl tt

abbrev refusing : World
refusing = record quiet {
  copy = λ tr. some (other "no compositor");
  background = λ tr. some (failed (other "timeout"));
}

deliver-Emits_example : IsEmitted quiet hello [] (deliver quiet restoring [] hello).1.1
unfolding deliver after_snapshot take_snapshot consume_pre_snapshot clipboard_deliver after_delivery
    paste_after_delay press after_paste maybe_restore can_restore same_as_transcript same_text
    with_clipboard_restore new_clipboard_autopaste_output
deliver-Emits_example = deliver-Emits quiet restoring [] hello refl

deliver_pastes_stale_example :
    (deliver refusing (new_clipboard_autopaste_output (pos 0)) [] hello).1.1
    ≡ Effect.paste ∷ Effect.wait_paste ∷ Effect.fallback hello ∷ Effect.copy hello ∷ []
unfolding new_clipboard_autopaste_output
deliver_pastes_stale_example =
    deliver_pastes_stale refusing (new_clipboard_autopaste_output (pos 0)) [] hello refl refl
      (λ t. refl) refl refl (λ t. refl)

abbrev waiting : Autopaste
waiting = record { has_snapshotter = true; has_restorer = true; delay = pos 50; pending = true }

-- A Wayland session where only xdotool is installed.
abbrev only_xdotool : Host
only_xdotool = record {
  look_path = λ t. same_text t (codes "xdotool");
  uinput = Choice.missing;
  wayland = true;
  x11 = false;
  wayland_clipboard = true;
  x11_clipboard = false;
  wayland_reader = true;
  x11_reader = false;
}

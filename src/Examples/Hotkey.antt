-- ===== src/Examples/Hotkey.antt =====
-- The evdev listener (pkg/hotkey/evdev_linux.go) on concrete packets.
use a2text.Base.{ℕ, false, List, [], ◌∷◌, ◌++◌, Bytes, ◌≡◌, refl, ◌↔◌}
use a2text.Hotkey.Evdev.{
  press_edge, release_edge, Listener, contains, handle_key, read_packet, decode_event,
  modifiers_satisfied, matched,
}
use a2text.Hotkey.Readers.{
  Readers, Op, packet, call, count, edges_of, IsAccounted, run, run-IsAccounted, step, handled,
  take_call, behind, is_calling, calls_of,
}
use a2text.Hotkey.Edges.{HoldsAll, handle_key_press_iff}

-- F4, with one of the control keys.
abbrev control_f4 : Listener
control_f4 = record {
  key_code = 62;
  mod_groups = (29 ∷ 97 ∷ []) ∷ [];
  mod_codes = 29 ∷ 97 ∷ [];
  mod_state = 97 ∷ [];
  key_down = false;
}

abbrev stamp : Bytes
stamp = 0 ∷ 0 ∷ 0 ∷ 0 ∷ 0 ∷ 0 ∷ 0 ∷ 0 ∷ 0 ∷ 0 ∷ 0 ∷ 0 ∷ 0 ∷ 0 ∷ 0 ∷ 0 ∷ []

abbrev key_event : ℕ → Bytes
key_event value = stamp ++ (1 ∷ 0 ∷ 62 ∷ 0 ∷ value ∷ 0 ∷ 0 ∷ 0 ∷ [])

abbrev readers : Readers
readers = record { listener = control_f4; calls = []; decided = []; called = [] }

-- Two keyboards: the press on the first, and its release on the second.
abbrev ops : List Op
ops =
    packet 0 (key_event 1) ∷ packet 0 (key_event 2) ∷ packet 1 (key_event 0) ∷ call 1 ∷ call 0 ∷ []

run-IsAccounted_example : IsAccounted false (run 1 readers ops)
unfolding count edges_of
run-IsAccounted_example =
    run-IsAccounted 1 false readers ops (record { in_turn = refl; accounted = λ e. refl })

-- The second reader calls the handler first: it gets the release before the press.
release_first : (run 1 readers ops).called ≡ release_edge ∷ press_edge ∷ []
unfolding run step handled take_call behind is_calling calls_of read_packet decode_event handle_key
    modifiers_satisfied matched contains
release_first = refl

abbrev pressed : ℕ
pressed = 1

handle_key_press_iff_example : ((handle_key control_f4 62 pressed).1 ≡ press_edge ∷ []) ↔ (
    (62 ≡ control_f4.key_code)
    × (pressed ≡ 1)
    × (contains 62 control_f4.mod_codes ≡ false)
    × (control_f4.key_down ≡ false)
    × HoldsAll control_f4.mod_groups control_f4.mod_state)
handle_key_press_iff_example = handle_key_press_iff control_f4 62 pressed

abbrev events : List (ℕ × ℕ)
events = (29, 1) ∷ (62, 1) ∷ (29, 0) ∷ (62, 0) ∷ []

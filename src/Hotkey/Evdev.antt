-- ===== src/Hotkey/Evdev.antt =====
-- The packets of pkg/hotkey/evdev_linux.go and the listener's state. Each function that takes the
-- mutex is one step; the readers of all devices share the listener, and call the handler behind it.
use a2text.Base.{
  ℕ, Bool, true, false, not, Option, none, some, List, [], ◌∷◌, ◌++◌, Bytes, u16_at, u32_at, length,
  leb, ◌==◌, if◌then◌else◌,
}

abbrev input_event_size : ℕ
input_event_size = 24

abbrev max_int32 : ℕ
max_int32 = 2147483647

-- One packet of `readDeviceLoop`: the code and the value of a key event. The number of the event type
-- EV_KEY is an argument. A short read, another type and a negative value are skipped.
unfoldable pub decode_event : ℕ → Bytes → Option (ℕ × ℕ)
decode_event ev_key buf =
    if not (length buf == input_event_size)
    then none
    else if not (u16_at 16 buf == ev_key)
    then none
    else if leb (u32_at 20 buf) max_int32
    then some (u16_at 18 buf, u32_at 20 buf)
    else none

pub data Edge : Type 0 where
  press_edge release_edge : Edge

-- `modState` is the list of the codes that it holds.
pub record Listener : Type 0 where
  pub key_code : ℕ
  pub mod_groups : List (List ℕ)
  pub mod_codes : List ℕ
  pub mod_state : List ℕ
  pub key_down : Bool

unfoldable pub contains : ℕ → List ℕ → Bool
contains c [] = false
contains c (d ∷ ds) = if c == d then true else contains c ds

-- `delete(e.modState, code)`
unfoldable pub delete : ℕ → List ℕ → List ℕ
delete c [] = []
delete c (d ∷ ds) = let rest = delete c ds in if c == d then rest else d ∷ rest

unfoldable pub flatten : List (List ℕ) → List ℕ
flatten [] = []
flatten (g ∷ gs) = g ++ flatten gs

-- The listener that `NewEvdevHotkey` builds from a key and the groups of `resolveModifiers`, which
-- puts the codes of all groups into `modCodes`.
unfoldable pub new_listener : ℕ → List (List ℕ) → Listener
unfolding flatten
new_listener key groups = record {
  key_code = key;
  mod_groups = groups;
  mod_codes = flatten groups;
  mod_state = [];
  key_down = false;
}

-- `modState[code] = true` on a press or a repeat, `delete` on a release; other values do nothing.
record_modifier : Listener → ℕ → ℕ → Listener
record_modifier l code value =
    if value == 1
    then record l { mod_state = code ∷ l.mod_state }
    else if value == 2
    then record l { mod_state = code ∷ l.mod_state }
    else if value == 0
    then record l { mod_state = delete code l.mod_state }
    else l

-- Some code of the group is pressed.
unfoldable pub matched : List ℕ → List ℕ → Bool
unfolding contains
matched [] state = false
matched (c ∷ group) state = if contains c state then true else matched group state

-- `modifiersSatisfiedLocked`
unfoldable pub modifiers_satisfied : List (List ℕ) → List ℕ → Bool
unfolding matched
modifiers_satisfied [] state = true
modifiers_satisfied (g ∷ groups) state =
    if matched g state then modifiers_satisfied groups state else false

try_press_main_key : Listener → Listener × Bool
try_press_main_key l =
    if l.key_down
    then (l, false)
    else if not (modifiers_satisfied l.mod_groups l.mod_state)
    then (l, false)
    else (record l { key_down = true }, true)

try_release_main_key : Listener → Listener × Bool
try_release_main_key l =
    if not l.key_down then (l, false) else (record l { key_down = false }, true)

-- The section under the mutex, and the edge with which the handler is called behind it.
fired : Edge → Listener × Bool → Listener × List Edge
fired e (l, fire) = (l, if fire then e ∷ [] else [])

unfoldable pub handle_key : Listener → ℕ → ℕ → Listener × List Edge
unfolding fired record_modifier try_press_main_key try_release_main_key
handle_key l code value =
    if contains code l.mod_codes
    then (record_modifier l code value, [])
    else if not (code == l.key_code)
    then (l, [])
    else if value == 1
    then fired press_edge (try_press_main_key l)
    else if value == 0
    then fired release_edge (try_release_main_key l)
    else (l, [])

-- One packet, and the calls of the handler that its reader makes behind it.
unfoldable pub read_packet : ℕ → Listener → Bytes → Listener × List Edge
unfolding decode_event
read_packet ev_key l buf = elim (decode_event ev_key buf) [
  | none ↦ (l, [])
  | some (code, value) ↦ handle_key l code value
]

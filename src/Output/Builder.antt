-- ===== src/Output/Builder.antt =====
-- The choice of an output from the configuration (internal/infra/factory/output_builder.go) and of the program that
-- pastes (pkg/clipboard/autopaste_linux.go, pkg/clipboard/x11_autopaste.go). What is installed and which session runs
-- are parameters.
use a2text.Base.{
  ℕ, Bool, true, false, not, ◌&&◌, ◌||◌, Option, none, some, List, [], ◌∷◌, Text, codes, is_empty,
  one_of, same_text, if◌then◌else◌,
}
use a2text.Base.Int.{pos}
use a2text.Config.Schema.{VoiceConfig}
use a2text.Config.Normal.{fold_text}
use a2text.Output.World.{Autopaste}
use a2text.Output.Autopaste.{new_clipboard_autopaste_output, with_clipboard_restore}

-- A chosen program, or `ErrUnsupportedAutopasteBackend`, or `ErrNoAutopasteBackend`.
pub data Choice : Type 0 where
  chosen : Text → Choice
  unsupported missing : Choice

-- What is installed and detected.
pub record Host : Type 0 where
  pub look_path : Text → Bool
  pub uinput : Choice
  pub wayland : Bool
  pub x11 : Bool
  pub wayland_clipboard : Bool
  pub x11_clipboard : Bool
  pub wayland_reader : Bool
  pub x11_reader : Bool

abbrev pub candidates : List Text
candidates = codes "wtype" ∷ codes "ydotool" ∷ codes "xdotool" ∷ []

unfoldable pub first_found : (Text → Bool) → List Text → Choice
first_found found [] = missing
first_found found (c ∷ cs) = let rest = first_found found cs in if found c then chosen c else rest

module _ (to_lower : ℕ → ℕ) (h : Host) where
  -- `resolveAutopasteBackend`
  unfoldable pub resolve_autopaste_backend : Text → Choice
  unfolding first_found
  resolve_autopaste_backend name =
      let b = fold_text to_lower name in
      if is_empty b || same_text b (codes "auto")
      then first_found h.look_path candidates
      else if not (one_of b candidates)
      then unsupported
      else if h.look_path b
      then chosen b
      else missing

  -- `NewX11Autopaster`
  unfoldable pub new_x11_autopaster : Text → Choice
  new_x11_autopaster name =
      if not (one_of (fold_text to_lower name) ([] ∷ codes "xdotool" ∷ codes "auto" ∷ []))
      then unsupported
      else if h.look_path (codes "xdotool")
      then chosen (codes "xdotool")
      else missing

  or_x11 : Text → Choice → Choice
  or_x11 name (chosen b) = chosen b
  or_x11 name unsupported = unsupported
  or_x11 name missing = new_x11_autopaster name

  -- `buildSessionAutopaster`
  unfoldable pub build_session_autopaster : Text → Choice
  unfolding or_x11
  build_session_autopaster name =
      if same_text name (codes "uinput")
      then h.uinput
      else if h.wayland
      then resolve_autopaste_backend name
      else if h.x11
      then new_x11_autopaster name
      else or_x11 name (resolve_autopaste_backend name)

-- `buildSessionClipboard` and `buildSessionClipboardReader`: Wayland's tool or X11's, or none.
pub data Tool : Type 0 where
  wayland_tool x11_tool : Tool

unfoldable pub build_session_tool : Bool → Bool → Bool → Bool → Option Tool
build_session_tool wayland x11 wayland_ok x11_ok =
    if wayland && wayland_ok
    then some Tool.wayland_tool
    else if x11 && x11_ok
    then some Tool.x11_tool
    else if wayland_ok
    then some Tool.wayland_tool
    else if x11_ok
    then some Tool.x11_tool
    else none

-- An output, or the error of `BuildOutput`.
pub data Built : Type 0 where
  stdout_output log_output : Built
  clipboard_output : Tool → Built
  autopaste_output : Tool → Text → Autopaste → Built
  unknown_output_mode unsupported_backend : Built

abbrev pub base_autopaste : Autopaste
base_autopaste = new_clipboard_autopaste_output (pos 0)

unfoldable pub with_reader : Bool → Option Tool → Autopaste
with_reader false reader = base_autopaste
with_reader true none = base_autopaste
with_reader true (some tool) = with_clipboard_restore true true base_autopaste

module _ (to_lower : ℕ → ℕ) (h : Host) where
  -- `buildAutopasteOutput`, from the chosen program.
  unfoldable pub build_autopaste_output : VoiceConfig → Tool → Choice → Built
  unfolding with_reader
  build_autopaste_output c clip unsupported = Built.unsupported_backend
  build_autopaste_output c clip missing = Built.clipboard_output clip
  build_autopaste_output c clip (chosen b) = Built.autopaste_output clip b (
      with_reader c.output.restore_clipboard
        (build_session_tool h.wayland h.x11 h.wayland_reader h.x11_reader))

  unfoldable pub on_clipboard : VoiceConfig → Option Tool → Built
  unfolding build_autopaste_output
  on_clipboard c none = Built.log_output
  on_clipboard c (some clip) =
      if not (same_text c.output.mode (codes "clipboard_autopaste"))
      then Built.clipboard_output clip
      else build_autopaste_output c clip
          (build_session_autopaster to_lower h c.output.autopaste_command)

  -- `BuildOutput`
  unfoldable pub build_output : Option VoiceConfig → Built
  unfolding on_clipboard
  build_output none = Built.log_output
  build_output (some c) =
      if same_text c.output.mode (codes "stdout")
      then Built.stdout_output
      else if not (one_of c.output.mode ([] ∷ codes "clipboard" ∷ codes "clipboard_autopaste" ∷ []))
      then Built.unknown_output_mode
      else on_clipboard c (build_session_tool h.wayland h.x11 h.wayland_clipboard h.x11_clipboard)

-- `pasteArgs`; none is `ErrUnsupportedAutopasteBackend`.
unfoldable pub paste_args : Text → Option (List Text)
paste_args b =
    if same_text b (codes "wtype")
    then some (codes "-M" ∷ codes "ctrl" ∷ codes "v" ∷ codes "-m" ∷ codes "ctrl" ∷ [])
    else if same_text b (codes "ydotool")
    then some (codes "key" ∷ codes "--delay" ∷ codes "300" ∷ codes "ctrl+v" ∷ [])
    else if same_text b (codes "xdotool")
    then some (codes "key" ∷ codes "--clearmodifiers" ∷ codes "ctrl+v" ∷ [])
    else none

-- ===== src/Output/Selection.antt =====
-- What the choice of an output promises (internal/infra/factory/output_builder.go, pkg/clipboard/autopaste_linux.go,
-- pkg/clipboard/x11_autopaste.go).
use a2text.Base.{
  ℕ, Bool, true, false, ◌||◌, Bool-cases, Option, none, some, List, [], ◌∷◌, Text, codes, is_empty,
  one_of, one_of_iff, IsOneOf, same_text, same_text_refl, ◌≡◌, ◌≢◌, refl, sym, subst, ◌⊎◌, inl, inr,
  arith,
}
use a2text.Config.Schema.{VoiceConfig, output_modes}
use a2text.Config.Normal.{fold_text}
use a2text.Config.Url.{Url}
use a2text.Config.Valid.{IsValid}
use a2text.Output.Builder.{
  Choice, chosen, unsupported, missing, Host, candidates, first_found, resolve_autopaste_backend,
  new_x11_autopaster, build_session_autopaster, Tool, build_session_tool, Built, on_clipboard,
  build_output, paste_args,
}

Choice-cases : (c : Choice) → ((b : Text) × (c ≡ chosen b)) ⊎ (c ≡ unsupported) ⊎ (c ≡ missing)
Choice-cases (chosen b) = inl (b, refl)
Choice-cases unsupported = inr (inl refl)
Choice-cases missing = inr (inr refl)

first_found-chosen :
    (found : Text → Bool) (texts : List Text) {b : Text}
    → first_found found texts ≡ chosen b
    → (found b ≡ true) × (one_of b texts ≡ true)
unfolding first_found one_of
first_found-chosen found [] h = ground arith
first_found-chosen found (t ∷ ts) {b} h = elim (Bool-cases (found t)) [
  | inl e ↦
      let same : t ≡ b = ground arith in
      subst (λ x. (found x ≡ true) × (one_of x (t ∷ ts) ≡ true)) same
        (e, ground (arith, same_text_refl t))
  | inr e ↦ let (f, m) = first_found-chosen found ts (ground arith) in (f, ground arith)
]

module _ (to_lower : ℕ → ℕ) (h : Host) where
  -- A program that pastes: it is installed, and it is one of the three, so that its arguments are known.
  abbrev pub IsUsable : Text → Type 0
  IsUsable b = (h.look_path b ≡ true) × IsOneOf b candidates

  resolve-IsUsable :
      (name : Text) {b : Text} → resolve_autopaste_backend to_lower h name ≡ chosen b → IsUsable b
  unfolding resolve_autopaste_backend
  resolve-IsUsable name {b} e = elim (Bool-cases (is_empty f || same_text f (codes "auto"))) [
    | inl auto ↦
        let (found, member) = first_found-chosen h.look_path candidates (ground arith) in
        (found, (one_of_iff b candidates).0 member)
    | inr named ↦
        let same : f ≡ b = ground arith in
        let known : one_of f candidates ≡ true = ground arith in
        let found : h.look_path f ≡ true = ground arith in
        subst IsUsable same (found, (one_of_iff f candidates).0 known)
  ]
    where
      f : Text
      f = fold_text to_lower name

  x11-IsUsable :
      (name : Text) {b : Text} → new_x11_autopaster to_lower h name ≡ chosen b → IsUsable b
  unfolding new_x11_autopaster
  x11-IsUsable name {b} e =
      let same : codes "xdotool" ≡ b = ground arith in
      let found : h.look_path (codes "xdotool") ≡ true = ground arith in
      subst IsUsable same (found, inr (inr refl))

  -- A program that is chosen is installed and one of the three whose arguments are known, unless the configuration
  -- asks for uinput.
  pub build_session_autopaster-IsUsable :
      (name : Text) {b : Text}
      → same_text name (codes "uinput") ≡ false
      → build_session_autopaster to_lower h name ≡ chosen b
      → IsUsable b
  unfolding build_session_autopaster
  build_session_autopaster-IsUsable name other e = elim (Bool-cases h.wayland) [
    | inl w ↦ resolve-IsUsable name (ground arith)
    | inr w ↦ elim (Bool-cases h.x11) [
      | inl x ↦ x11-IsUsable name (ground arith)
      | inr x ↦ elim (Choice-cases (resolve_autopaste_backend to_lower h name)) [
        | inl (b', r) ↦ resolve-IsUsable name (ground arith)
        | inr (inl r) ↦ ground arith
        | inr (inr r) ↦ x11-IsUsable name (ground arith)
      ]
    ]
  ]

  on_clipboard-known :
      (c : VoiceConfig) (tool : Option Tool)
      → on_clipboard to_lower h c tool ≢ Built.unknown_output_mode
  unfolding on_clipboard
  on_clipboard-known c none n = ground arith
  on_clipboard-known c (some clip) n =
      elim (Choice-cases (build_session_autopaster to_lower h c.output.autopaste_command)) [
        | inl (b, e) ↦ ground arith
        | inr (inl e) ↦ ground arith
        | inr (inr e) ↦ ground arith
      ]

  -- For a configuration that the validation accepts, the builder never finds the output mode unknown.
  pub build_output_known_mode :
      (parse : Text → Option Url) (c : VoiceConfig)
      → IsValid to_lower parse c
      → build_output to_lower h (some c) ≢ Built.unknown_output_mode
  unfolding build_output one_of
  build_output_known_mode parse c v n =
      let known = on_clipboard-known c in
      let member = (one_of_iff c.output.mode output_modes).1 v.mode in
      ground (arith, known (build_session_tool h.wayland h.x11 h.wayland_clipboard h.x11_clipboard))

-- Each of the three programs has arguments.
pub paste_args-some : (b : Text) → IsOneOf b candidates → paste_args b ≢ none
unfolding paste_args same_text
paste_args-some b (inl e) = subst (λ x. paste_args x ≢ none) (sym e) (λ n. ground arith)
paste_args-some b (inr (inl e)) = subst (λ x. paste_args x ≢ none) (sym e) (λ n. ground arith)
paste_args-some b (inr (inr e)) = subst (λ x. paste_args x ≢ none) (sym e) (λ n. ground arith)

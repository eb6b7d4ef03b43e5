-- ===== src/Hotkey/Edges.antt =====
-- When the evdev listener fires, and in which order (pkg/hotkey/evdev_linux.go).
use a2text.Base.{
  ℕ, Bool, true, false, Option-cases, List, [], ◌∷◌, ◌++◌, Bytes, ◌≡◌, refl, ap, ◌∙◌, ◌↔◌, ◌⊎◌, inl,
  inr, arith, ◌==◌, if◌then◌else◌,
}
use a2text.Hotkey.Evdev.{
  decode_event, Edge, press_edge, release_edge, Listener, contains, delete, matched,
  modifiers_satisfied, handle_key, read_packet,
}

-- Press and release in turn; the flags say whether the key is down before and after.
abbrev pub Alternates : Bool → List Edge → Bool → Type 0
Alternates down [] now = down ≡ now
Alternates false (press_edge ∷ es) now = Alternates true es now
Alternates true (release_edge ∷ es) now = Alternates false es now
Alternates _ (e ∷ es) now = ⊥

pub Alternates-append :
    (a b c : Bool) (xs ys : List Edge)
    → Alternates a xs b
    → Alternates b ys c
    → Alternates a (xs ++ ys) c
Alternates-append a b c [] ys h k = rw h k
Alternates-append false b c (press_edge ∷ xs) ys h k = Alternates-append true b c xs ys h k
Alternates-append true b c (release_edge ∷ xs) ys h k = Alternates-append false b c xs ys h k
Alternates-append true b c (press_edge ∷ xs) ys h k = absurd h
Alternates-append false b c (release_edge ∷ xs) ys h k = absurd h

handle_key-Alternates :
    (l : Listener) (code value : ℕ)
    → Alternates l.key_down (handle_key l code value).1 (handle_key l code value).0.key_down
unfolding handle_key
handle_key-Alternates l code value = ground arith

pub read_packet-Alternates :
    (ev_key : ℕ) (l : Listener) (p : Bytes)
    → Alternates l.key_down (read_packet ev_key l p).1 (read_packet ev_key l p).0.key_down
unfolding read_packet
read_packet-Alternates ev_key l p = elim (Option-cases (decode_event ev_key p)) [
  | inl skipped ↦ ground arith
  | inr ((code, value), decoded) ↦ ground (arith, handle_key-Alternates l code value)
]

-- Every group has a code among those that are held.
abbrev Holds : List ℕ → List ℕ → Type 0
Holds [] state = ⊥
Holds (c ∷ group) state = (contains c state ≡ true) ⊎ Holds group state

abbrev pub HoldsAll : List (List ℕ) → List ℕ → Type 0
HoldsAll [] state = Unit
HoldsAll (g ∷ groups) state = Holds g state × HoldsAll groups state

matched-Holds : (g state : List ℕ) → (matched g state ≡ true) ↔ Holds g state
unfolding matched
matched-Holds [] state = (λ h. cc, λ h. absurd h)
matched-Holds (c ∷ g) state = ground (arith, matched-Holds g state)

modifiers_satisfied-HoldsAll :
    (groups : List (List ℕ)) (state : List ℕ)
    → (modifiers_satisfied groups state ≡ true) ↔ HoldsAll groups state
unfolding modifiers_satisfied
modifiers_satisfied-HoldsAll [] state = (λ h. tt, λ h. refl)
modifiers_satisfied-HoldsAll (g ∷ groups) state =
    ground (arith, matched-Holds g state, modifiers_satisfied-HoldsAll groups state)

-- A key event fires a press exactly if it is a press of the main key, which is not down yet and is no
-- modifier, while every modifier group has a key held.
pub handle_key_press_iff :
    (l : Listener) (code value : ℕ)
    → ((handle_key l code value).1 ≡ press_edge ∷ []) ↔ (
        (code ≡ l.key_code)
        × (value ≡ 1)
        × (contains code l.mod_codes ≡ false)
        × (l.key_down ≡ false)
        × HoldsAll l.mod_groups l.mod_state)
unfolding handle_key
handle_key_press_iff l code value =
    ground (arith, modifiers_satisfied-HoldsAll l.mod_groups l.mod_state)

-- A key event fires a release exactly if it is a release of the main key, which is down and is no
-- modifier; the modifiers do not matter.
handle_key_release_iff :
    (l : Listener) (code value : ℕ)
    → ((handle_key l code value).1 ≡ release_edge ∷ []) ↔ (
        (code ≡ l.key_code)
        × (value ≡ 0)
        × (contains code l.mod_codes ≡ false)
        × (l.key_down ≡ true))
unfolding handle_key
handle_key_release_iff l code value = ground arith

-- Whether a key is held after its own last press, repeat or release; other values do not count.
abbrev held_by : Bool → ℕ → Bool
held_by before value =
    if value == 1 then true else if value == 2 then true else if value == 0 then false else before

abbrev pub held_after : ℕ → Bool → List (ℕ × ℕ) → Bool
held_after c before [] = before
held_after c before ((code, value) ∷ events) =
    held_after c (if code == c then held_by before value else before) events

pub run_keys : Listener → List (ℕ × ℕ) → Listener
run_keys l [] = l
run_keys l ((code, value) ∷ events) = run_keys (handle_key l code value).0 events

contains-delete :
    (c d : ℕ) (state : List ℕ)
    → contains c (delete d state) ≡ (if d == c then false else contains c state)
unfolding contains delete
contains-delete c d [] = ground arith
contains-delete c d (x ∷ state) = ground (arith, contains-delete c d state)

handle_key-held :
    (l : Listener) (c code value : ℕ)
    → contains c l.mod_codes ≡ true
    → contains c (handle_key l code value).0.mod_state
      ≡ (if code == c then held_by (contains c l.mod_state) value else contains c l.mod_state)
unfolding handle_key contains
handle_key-held l c code value h = ground (arith, contains-delete c code l.mod_state)

handle_key_codes :
    (l : Listener) (code value : ℕ) → (handle_key l code value).0.mod_codes ≡ l.mod_codes
unfolding handle_key
handle_key_codes l code value = ground arith

-- After any sequence of key events a modifier key is among the pressed ones exactly if its own last
-- press, repeat or release says so, whatever the other keys did.
pub run_keys-held :
    (l : Listener) (c : ℕ) (events : List (ℕ × ℕ))
    → contains c l.mod_codes ≡ true
    → contains c (run_keys l events).mod_state ≡ held_after c (contains c l.mod_state) events
unfolding run_keys
run_keys-held l c [] h = refl
run_keys-held l c ((code, value) ∷ events) h =
    run_keys-held (handle_key l code value).0 c events (rw (handle_key_codes l code value) h)
    ∙ ap (λ b. held_after c b events) (handle_key-held l c code value h)

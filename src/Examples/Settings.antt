-- ===== src/Examples/Settings.antt =====
-- Runs of the save of the settings, and the theorems at concrete inputs.
use a2text.Base.{
  ◌&&◌, ◌||◌, Bool, if◌then◌else◌, ◌⊎◌, true, false, Bool-cases, none, some, [], ◌∷◌, Text, codes,
  same_text, same_text-eq, one_of, trim_space, is_space, ◌≡◌, refl, sym, ◌∙◌, subst, arith, inl,
  inr,
}
use a2text.Base.Int.{ℤ}
use a2text.Config.Keys.{is_tolerated}
use a2text.Examples.Config.{old_style}
use a2text.Settings.Document.{Entries, get, put, remove, run}
use a2text.Settings.Save.{
  Leaf, Value, leaf, section, text, section_of, edit_section, edit_sections, apply_to_map, Disk,
  split_commas, join_commas, trimmed, split_trimmed,
}
use a2text.Settings.Saved.{value_at}
use a2text.Settings.Tolerated.{
  leaf_of, Key, outside, inside, spelled, value_of, is_stale, apply_to_map-tolerated,
}

abbrev some_time : ℤ → Text
some_time d = codes "10s"

-- A file with a setting that the window does not show, a kept key and the stale prefix.
abbrev old_file : Entries (Value Text)
old_file =
    (codes "ui_language", leaf (text (codes "de")))
    ∷ (codes "go_whisper", section ((codes "prefix", text (codes "/api")) ∷ []))
    ∷ []

-- A disk whose bytes are maps.
abbrev plain_disk : Disk Text (Entries (Value Text))
plain_disk = record {
  config_path = none;
  mkdir_all = none;
  read = some ((codes "openai", section ((codes "api_key", text (codes "old")) ∷ [])) ∷ []);
  unmarshal = λ m. some m;
  marshal = λ m. some m;
  write = λ m. none;
}

-- The stale prefix is gone after a save, and what the window does not show is still there.
prefix_removed :
    value_of
      (inside (codes "go_whisper") (codes "prefix"))
      (apply_to_map some_time old_style old_file)
    ≡ none
unfolding apply_to_map value_of value_at edit_sections edit_section run put remove get section_of
    same_text
prefix_removed = refl

language_kept :
    value_of (outside (codes "ui_language")) (apply_to_map some_time old_style old_file)
    ≡ some (text (codes "de"))
unfolding apply_to_map value_of value_at edit_sections edit_section run put remove get section_of
    same_text
language_kept = refl

no_value :
    (name key : Text)
    → (same_text key (codes "prefix") ≡ false) ⊎ (same_text name (codes "go_whisper") ≡ false)
    → value_at name key old_file ≡ none
unfolding value_at get section_of
no_value name key e =
    go (same_text name (codes "ui_language")) (same_text name (codes "go_whisper")) e
  where
    go :
        (a b : Bool)
        → (same_text key (codes "prefix") ≡ false) ⊎ (b ≡ false)
        → get key (
            section_of {X = Text} (
              if a
              then some (leaf (text (codes "de")))
              else if b
              then some (section ((codes "prefix", text (codes "/api")) ∷ []))
              else none))
          ≡ none
    go true b e = refl
    go false false e = refl
    go false true e = ground arith

missing : (b : Bool) (v : Leaf Text) → (none ≡ some v) → b ≡ true
missing b v h = ground arith

old_file-known :
    (k : Key) (v : Leaf Text)
    → is_stale k ≡ false
    → value_of k old_file ≡ some v
    → is_tolerated (spelled k) ≡ true
unfolding is_stale leaf_of value_of value_at get section_of is_tolerated one_of same_text
old_file-known (outside name) v s h = elim (Bool-cases (same_text name (codes "ui_language"))) [
  | inl e ↦
      subst (λ n. is_tolerated n ≡ true) (sym (same_text-eq name (codes "ui_language") e)) refl
  | inr e ↦ ground arith
]
old_file-known (inside name key) v s h = missing (is_tolerated (spelled (inside name key))) v (
    sym (
      no_value name key
        (either (same_text name (codes "go_whisper")) (same_text key (codes "prefix")) _ _ s))
    ∙ h)
  where
    either : (a b c d : Bool) → (((a && b) || c) || d) ≡ false → (b ≡ false) ⊎ (a ≡ false)
    either a b c d h = ground arith

apply_to_map-tolerated_example : is_tolerated (codes "hotkey.mode") ≡ true
unfolding apply_to_map value_of value_at edit_sections edit_section run put remove get section_of
    same_text
apply_to_map-tolerated_example =
    apply_to_map-tolerated some_time old_style old_file old_file-known
      (inside (codes "hotkey") (codes "mode")) refl

-- A modifier with a comma in it comes back as two.
comma_splits :
    split_trimmed (join_commas (codes "ctrl" ∷ codes "a, b" ∷ []))
    ≡ codes "ctrl" ∷ codes "a" ∷ codes "b" ∷ []
unfolding split_trimmed join_commas split_commas trimmed trim_space is_space
comma_splits = refl

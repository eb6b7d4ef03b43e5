-- ===== src/Settings/Tolerated.antt =====
-- The keys of the file that the settings window saves (internal/adapters/settings/save.go), against the check of the
-- loader (internal/infra/config/config.go).
use a2text.Base.{
  ◌||◌, Bool, true, false, Option, none, some, List, [], ◌∷◌, ◌++◌, ◌&&◌, Text, same_text,
  same_text-eq, codes, ◌≡◌, refl, sym, ap, ◌∙◌, ◌⊎◌, inl, inr, subst, Bool-cases, arith,
  if◌then◌else◌,
}
use a2text.Base.Int.{ℤ}
use a2text.Config.Schema.{VoiceConfig}
use a2text.Config.Keys.{is_tolerated}
use a2text.Settings.Document.{
  Entries, Edit, run, get, put, Left, untouched, holds, left, settled, get-run, get-put,
}
use a2text.Settings.Save.{
  Leaf, Value, leaf, section, section_of, edit_section, edit_sections, section_edits, top_edits,
  apply_to_map,
}
use a2text.Settings.Saved.{value_at, edits_of, value_at-edit_sections}
use a2text.Settings.Known.{
  path_test, all_set-left, all_set-edits_of, all_sections-section_edits, is_tolerated_leaf,
  all_set-top_edits,
}

-- The keys that viper lists: a value outside the sections, or one within a section.
pub data Key : Type 0 where
  outside : Text → Key
  inside : Text → Text → Key

-- The key as it is written in a path.
abbrev pub spelled : Key → Text
spelled (outside name) = name
spelled (inside name key) = name ++ 46 ∷ key

unfoldable pub leaf_of : {X : Type 0} → Option (Value X) → Option (Leaf X)
leaf_of (some (leaf v)) = some v
leaf_of (some (section m)) = none
leaf_of none = none

unfoldable pub value_of : {X : Type 0} → Key → Entries (Value X) → Option (Leaf X)
unfolding leaf_of value_at
value_of (outside name) doc = leaf_of (get name doc)
value_of (inside name key) doc = value_at name key doc

-- The keys of older versions: go_whisper.prefix, hotkey.backend and hotkey.enabled.
unfoldable pub is_stale : Key → Bool
is_stale (outside name) = false
is_stale (inside name key) =
    (same_text name (codes "go_whisper") && same_text key (codes "prefix"))
    || (same_text name (codes "hotkey") && same_text key (codes "backend"))
    || (same_text name (codes "hotkey") && same_text key (codes "enabled"))

unless_both :
    {X : Type 0} (duration : ℤ → Text) (cfg : VoiceConfig) (name key n k : Text)
    → left k (edits_of {X = X} n (section_edits duration cfg)) ≡ holds none
    → left key (edits_of {X = X} name (section_edits duration cfg)) ≡ untouched
    → (same_text name n && same_text key k) ≡ false
unless_both {X} duration cfg name key n k h u = elim (Bool-cases (same_text name n)) [
  | inr e ↦ ground (arith, e)
  | inl e ↦ elim (Bool-cases (same_text key k)) [
    | inr e' ↦ ground (arith, e')
    | inl e' ↦
        let u' : left k (edits_of {X = X} n (section_edits duration cfg)) ≡ untouched =
          subst (λ t. left t (edits_of {X = X} n (section_edits duration cfg)) ≡ untouched)
            (same_text-eq key k e')
            (subst (λ t. left key (edits_of {X = X} t (section_edits duration cfg)) ≡ untouched)
              (same_text-eq name n e) u) in
        apart _ h u'
  ]
]
  where
    apart :
        (l : Left (Leaf X))
        → l ≡ holds none
        → l ≡ untouched
        → (same_text name n && same_text key k) ≡ false
    apart l a b = ground arith

-- What a save does not touch is not stale.
is_stale-untouched :
    {X : Type 0} (duration : ℤ → Text) (cfg : VoiceConfig) (name key : Text)
    → left key (edits_of {X = X} name (section_edits duration cfg)) ≡ untouched
    → is_stale (inside name key) ≡ false
unfolding is_stale left edits_of same_text
is_stale-untouched {X} duration cfg name key u =
    rw
      (
        unless_both {X = X} duration cfg name key (codes "go_whisper") (codes "prefix") refl u,
        unless_both {X = X} duration cfg name key (codes "hotkey") (codes "backend") refl u,
        unless_both {X = X} duration cfg name key (codes "hotkey") (codes "enabled") refl u,
      )
      refl

leaf_of-put :
    {X : Type 0} (name n : Text) (m : Entries (Leaf X)) (doc : Entries (Value X)) {v : Leaf X}
    → leaf_of (get name (put n (section m) doc)) ≡ some v
    → leaf_of (get name doc) ≡ some v
unfolding leaf_of
leaf_of-put name n m doc {v} h =
    let e : leaf_of (if same_text name n then some (section m) else get name doc) ≡ some v =
      ap leaf_of (sym (get-put name n (section m) doc)) ∙ h in
    ground (arith, e)

leaf_of-edit_sections :
    {X : Type 0} (name : Text) (table : List (Text × List (Edit (Leaf X))))
    (doc : Entries (Value X)) {v : Leaf X}
    → leaf_of (get name (edit_sections table doc)) ≡ some v
    → leaf_of (get name doc) ≡ some v
unfolding edit_sections edit_section
leaf_of-edit_sections name [] doc h = h
leaf_of-edit_sections name ((n, edits) ∷ rest) doc h =
    leaf_of-put name n (run edits (section_of (get n doc))) doc
      (leaf_of-edit_sections name rest (edit_section n edits doc) h)

-- What the settings outside the sections leave under a name, if they are leaves with known keys.
top_leaf :
    {X : Type 0} (name : Text) (l : Left (Value X)) (before : Option (Value X)) {v : Leaf X}
    → ((w : Value X) → l ≡ holds (some w) → is_tolerated_leaf name w ≡ true)
    → leaf_of (settled l before) ≡ some v
    → (is_tolerated name ≡ true) ⊎ (leaf_of before ≡ some v)
unfolding leaf_of settled is_tolerated_leaf
top_leaf name untouched before t h = inr h
top_leaf name (holds (some (leaf w))) before t h = inl (t _ refl)
top_leaf name (holds (some (section m))) before t h = ground arith
top_leaf name (holds none) before t h = ground arith

top_section :
    {X : Type 0} (name key : Text) (l : Left (Value X)) (before : Option (Value X)) {v : Leaf X}
    → ((w : Value X) → l ≡ holds (some w) → is_tolerated_leaf name w ≡ true)
    → get key (section_of (settled l before)) ≡ some v
    → get key (section_of before) ≡ some v
unfolding settled section_of get is_tolerated_leaf
top_section name key untouched before t h = h
top_section name key (holds (some (leaf w))) before t h = ground arith
top_section name key (holds (some (section m))) before t h =
    let bad : is_tolerated_leaf name (section m) ≡ true = t (section m) refl in ground (arith, bad)
top_section name key (holds none) before t h = ground arith

said_leaf :
    {X : Type 0} (name key : Text) (l : Left (Leaf X)) (before : Option (Leaf X)) {v : Leaf X}
    → ((w : Leaf X) → l ≡ holds (some w) → path_test name key w ≡ true)
    → settled l before ≡ some v
    → (is_tolerated (name ++ 46 ∷ key) ≡ true) ⊎ ((l ≡ untouched) × (before ≡ some v))
unfolding settled
said_leaf name key untouched before t h = inr (refl, h)
said_leaf name key (holds (some w)) before t h = inl (t _ refl)
said_leaf name key (holds none) before t h = ground arith

-- Every key of the file that a save leaves is known or deprecated, if this held before of all keys but the stale
-- go_whisper.prefix, hotkey.backend and hotkey.enabled.
pub apply_to_map-tolerated :
    {X : Type 0} (duration : ℤ → Text) (cfg : VoiceConfig) (doc : Entries (Value X))
    (known : (k : Key) (v : Leaf X)
      → is_stale k ≡ false
      → value_of k doc ≡ some v
      → is_tolerated (spelled k) ≡ true)
    (k : Key) {v : Leaf X}
    → value_of k (apply_to_map duration cfg doc) ≡ some v
    → is_tolerated (spelled k) ≡ true
unfolding value_of value_at is_stale apply_to_map
apply_to_map-tolerated {X} duration cfg doc known (outside name) h =
    elim (top_leaf name (left name (top_edits duration cfg)) (get name doc)
      (λ w.
        all_set-left is_tolerated_leaf name (top_edits duration cfg)
          (all_set-top_edits X duration cfg))
      (ap leaf_of (sym (get-run name (top_edits duration cfg) doc))
        ∙ leaf_of-edit_sections name (section_edits duration cfg) (run (top_edits duration cfg) doc)
            h)) [ inl t ↦ t | inr b ↦ known (outside name) _ refl b ]
apply_to_map-tolerated {X} duration cfg doc known (inside name key) h =
    elim (said_leaf name key (left key (edits_of name (section_edits duration cfg)))
      (value_at name key (run (top_edits duration cfg) doc))
      (λ w. all_set-left (path_test name) key (edits_of name (section_edits duration cfg)) (
        all_set-edits_of name (section_edits duration cfg)
          (all_sections-section_edits X duration cfg)))
      (sym (
          value_at-edit_sections name key (section_edits duration cfg)
            (run (top_edits duration cfg) doc))
        ∙ h)) [
          | inl t ↦ t
          | inr (e, b) ↦ known (inside name key) _ (is_stale-untouched duration cfg name key e) (
              top_section name key (left name (top_edits duration cfg)) (get name doc)
                (λ w.
                  all_set-left is_tolerated_leaf name (top_edits duration cfg)
                    (all_set-top_edits X duration cfg))
                (ap (λ o. get key (section_of o)) (sym (get-run name (top_edits duration cfg) doc))
                  ∙ b))
        ]

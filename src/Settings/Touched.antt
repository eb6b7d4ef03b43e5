-- ===== src/Settings/Touched.antt =====
-- What a save leaves alone (internal/adapters/settings/save.go): the paths that none of its edits names.
use a2text.Base.{
  Bool, true, false, ◌&&◌, ◌||◌, Bool-cases, List, [], ◌∷◌, ◌++◌, Text, same_text, same_text-eq,
  is_empty, codes, one_of, ◌≡◌, refl, sym, ap, ◌∙◌, subst, arith, ◌⊎◌, inl, inr,
}
use a2text.Base.Int.{ℤ}
use a2text.Config.Schema.{VoiceConfig}
use a2text.Config.Keys.{is_tolerated}
use a2text.Settings.Document.{Entries, Edit, set, unset, untouched, or_else, left, settled}
use a2text.Settings.Save.{Leaf, Value, section_edits, top_edits, apply_to_map, key_edit}
use a2text.Settings.Saved.{value_at, edits_of, value_at-apply_to_map}
use a2text.Settings.Tolerated.{inside, is_stale}
use a2text.Settings.Shown.{outside_keys, is_ours}

-- Every edit names a key that passes a test.
unfoldable all_named {ℓ} : {V : Type ℓ} → (Text → Bool) → List (Edit V) → Bool
all_named p [] = true
all_named p (set j v ∷ rest) = p j && all_named p rest
all_named p (unset j ∷ rest) = p j && all_named p rest

all_named-left {ℓ} :
    {V : Type ℓ} (p : Text → Bool) (k : Text) (edits : List (Edit V))
    → all_named p edits ≡ true
    → p k ≡ false
    → left k edits ≡ untouched
unfolding all_named left or_else
all_named-left p k [] a h = refl
all_named-left p k (set j w ∷ rest) a h = elim (Bool-cases (same_text k j)) [
  | inl same ↦ ground (arith, same_text-eq k j)
  | inr other ↦ rw (all_named-left p k rest (ground arith) h, other) refl
]
all_named-left p k (unset j ∷ rest) a h = elim (Bool-cases (same_text k j)) [
  | inl same ↦ ground (arith, same_text-eq k j)
  | inr other ↦ rw (all_named-left p k rest (ground arith) h, other) refl
]

all_named-append {ℓ} :
    {V : Type ℓ} (p : Text → Bool) (a b : List (Edit V))
    → all_named p a ≡ true
    → all_named p b ≡ true
    → all_named p (a ++ b) ≡ true
unfolding all_named
all_named-append p [] b h g = g
all_named-append p (set j v ∷ a) b h g = ground (arith, all_named-append p a b)
all_named-append p (unset j ∷ a) b h g = ground (arith, all_named-append p a b)

-- The paths of a section that the window may edit.
abbrev known_or_stale : Text → Text → Bool
known_or_stale name key = is_tolerated (name ++ 46 ∷ key) || is_stale (inside name key)

unfoldable all_sections_named : {X : Type 0} → List (Text × List (Edit (Leaf X))) → Bool
unfolding all_named
all_sections_named [] = true
all_sections_named ((n, edits) ∷ rest) =
    all_named (known_or_stale n) edits && all_sections_named rest

all_named-edits_of :
    {X : Type 0} (name : Text) (table : List (Text × List (Edit (Leaf X))))
    → all_sections_named table ≡ true
    → all_named (known_or_stale name) (edits_of name table) ≡ true
unfolding all_sections_named edits_of all_named
all_named-edits_of name [] h = refl
all_named-edits_of name ((n, edits) ∷ rest) h = elim (Bool-cases (same_text name n)) [
  | inl same ↦ rw same (
      all_named-append (known_or_stale name) edits (edits_of name rest)
        (subst (λ m. all_named (known_or_stale m) edits ≡ true) (sym (same_text-eq name n same))
          (ground arith))
        (all_named-edits_of name rest (ground arith)))
  | inr other ↦ rw other (all_named-edits_of name rest (ground arith))
]

all_named-key_edit :
    (X : Type 0) (name key : Text)
    → known_or_stale name (codes "api_key") ≡ true
    → all_named {V = Leaf X} (known_or_stale name) (key_edit key) ≡ true
unfolding all_named
all_named-key_edit X name key h = elim (Bool-cases (is_empty key)) [
  | inl e ↦ rw e refl
  | inr e ↦ rw (e, h) refl
]

section_edits-named :
    (X : Type 0) (duration : ℤ → Text) (cfg : VoiceConfig)
    → all_sections_named {X = X} (section_edits duration cfg) ≡ true
unfolding all_sections_named all_named is_tolerated is_stale one_of same_text
section_edits-named X duration cfg =
    rw
      (
        all_named-key_edit X (codes "openai") cfg.openai.api_key refl,
        all_named-key_edit X (codes "deepgram") cfg.deepgram.api_key refl,
      )
      refl

top_edits-named :
    (X : Type 0) (duration : ℤ → Text) (cfg : VoiceConfig)
    → all_named {V = Value X} (λ n. one_of n outside_keys) (top_edits duration cfg) ≡ true
unfolding all_named one_of same_text
top_edits-named X duration cfg = refl

pub apply_to_map_rest :
    {X : Type 0} (duration : ℤ → Text) (cfg : VoiceConfig) (doc : Entries (Value X))
    (name key : Text)
    → (is_ours name key ≡ true)
      ⊎ (value_at name key (apply_to_map duration cfg doc) ≡ value_at name key doc)
unfolding is_ours settled
apply_to_map_rest {X} duration cfg doc name key = elim (Bool-cases (is_ours name key)) [
  | inl e ↦ inl e
  | inr e ↦ inr (
      value_at-apply_to_map duration cfg doc name key (
        all_named-left (λ n. one_of n outside_keys) name (top_edits duration cfg)
          (top_edits-named X duration cfg) (ground (arith, e)))
      ∙ ap (λ l. settled l (value_at name key doc))
          (all_named-left (known_or_stale name) key (edits_of name (section_edits duration cfg))
            (all_named-edits_of name (section_edits duration cfg)
              (section_edits-named X duration cfg))
            (ground (arith, e))))
]

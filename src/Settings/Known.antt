-- ===== src/Settings/Known.antt =====
-- The assignments of a save of the settings (internal/adapters/settings/save.go) are to keys that the loader knows.
use a2text.Base.{
  Bool, true, false, Option, some, List, [], ◌∷◌, ◌++◌, ◌&&◌, Text, same_text, same_text-eq,
  is_empty, codes, one_of, ◌≡◌, refl, sym, ◌⊎◌, inl, inr, subst, Bool-cases, arith, if◌then◌else◌,
}
use a2text.Base.Int.{ℤ}
use a2text.Config.Schema.{VoiceConfig}
use a2text.Config.Keys.{is_tolerated}
use a2text.Settings.Document.{Edit, set, unset, Left, untouched, holds, or_else, left}
use a2text.Settings.Save.{Leaf, Value, leaf, section, section_edits, top_edits, key_edit, text}
use a2text.Settings.Saved.{edits_of}

-- Every assignment passes a test.
unfoldable pub all_set {ℓ} : {V : Type ℓ} → (Text → V → Bool) → List (Edit V) → Bool
all_set p [] = true
all_set p (set j v ∷ rest) = p j v && all_set p rest
all_set p (unset j ∷ rest) = all_set p rest

or_else-some {ℓ} :
    {V : Type ℓ} (a b : Left V) {v : Option V}
    → or_else a b ≡ holds v
    → (a ≡ holds v) ⊎ (b ≡ holds v)
unfolding or_else
or_else-some untouched b h = inr h
or_else-some (holds w) b h = inl h

pub all_set-left {ℓ} :
    {V : Type ℓ} (p : Text → V → Bool) (k : Text) (edits : List (Edit V)) {v : V}
    → all_set p edits ≡ true
    → left k edits ≡ holds (some v)
    → p k v ≡ true
unfolding all_set left
all_set-left p k [] a h = ground arith
all_set-left p k (set j w ∷ rest) a h = elim (or_else-some (left k rest) _ h) [
  | inl e ↦ all_set-left p k rest (ground arith) e
  | inr e ↦ elim (Bool-cases (same_text k j)) [
    | inl same ↦ ground (arith, same_text-eq k j)
    | inr other ↦ ground arith
  ]
]
all_set-left p k (unset j ∷ rest) a h = elim (or_else-some (left k rest) _ h) [
  | inl e ↦ all_set-left p k rest (ground arith) e
  | inr e ↦ ground arith
]

all_set-append {ℓ} :
    {V : Type ℓ} (p : Text → V → Bool) (a b : List (Edit V))
    → all_set p a ≡ true
    → all_set p b ≡ true
    → all_set p (a ++ b) ≡ true
unfolding all_set
all_set-append p [] b h g = g
all_set-append p (set j v ∷ a) b h g = ground (arith, all_set-append p a b)
all_set-append p (unset j ∷ a) b h g = all_set-append p a b h g

abbrev pub path_test : {X : Type 0} → Text → Text → Leaf X → Bool
path_test name key v = is_tolerated (name ++ 46 ∷ key)

unfoldable pub all_sections : {X : Type 0} → List (Text × List (Edit (Leaf X))) → Bool
unfolding all_set
all_sections [] = true
all_sections ((n, edits) ∷ rest) = all_set (path_test n) edits && all_sections rest

pub all_set-edits_of :
    {X : Type 0} (name : Text) (table : List (Text × List (Edit (Leaf X))))
    → all_sections table ≡ true
    → all_set (path_test name) (edits_of name table) ≡ true
unfolding all_sections edits_of all_set
all_set-edits_of name [] h = refl
all_set-edits_of name ((n, edits) ∷ rest) h = elim (Bool-cases (same_text name n)) [
  | inl same ↦ rw (same) (
      all_set-append (path_test name) edits (edits_of name rest)
        (subst (λ m. all_set (path_test m) edits ≡ true) (sym (same_text-eq name n same))
          (ground arith))
        (all_set-edits_of name rest (ground arith)))
  | inr other ↦ rw (other) (all_set-edits_of name rest (ground arith))
]

all_set-key_edit :
    (X : Type 0) (name key : Text)
    → is_tolerated (name ++ 46 ∷ codes "api_key") ≡ true
    → all_set {V = Leaf X} (path_test name) (key_edit key) ≡ true
unfolding all_set
all_set-key_edit X name key h = go (is_empty key)
  where
    go :
        (b : Bool)
        → all_set {V = Leaf X}
            (path_test name)
            (if b then [] else set (codes "api_key") (text key) ∷ [])
          ≡ true
    go true = refl
    go false = ground arith

-- The assignments of the window are to known keys.
pub all_sections-section_edits :
    (X : Type 0) (duration : ℤ → Text) (cfg : VoiceConfig)
    → all_sections {X = X} (section_edits duration cfg) ≡ true
unfolding all_sections all_set is_tolerated one_of same_text
all_sections-section_edits X duration cfg =
    rw
      (
        all_set-key_edit X (codes "openai") cfg.openai.api_key refl,
        all_set-key_edit X (codes "deepgram") cfg.deepgram.api_key refl,
      )
      refl

unfoldable pub is_tolerated_leaf : {X : Type 0} → Text → Value X → Bool
is_tolerated_leaf name (leaf v) = is_tolerated name
is_tolerated_leaf name (section m) = false

pub all_set-top_edits :
    (X : Type 0) (duration : ℤ → Text) (cfg : VoiceConfig)
    → all_set {V = Value X} is_tolerated_leaf (top_edits duration cfg) ≡ true
unfolding all_set is_tolerated_leaf is_tolerated one_of same_text
all_set-top_edits X duration cfg = refl

-- ===== src/Settings/Saved.antt =====
-- What a save of the settings window leaves in the file (internal/adapters/settings/save.go), and that the loader
-- (internal/infra/config/config.go) does not refuse its keys.
use a2text.Base.{
  Bool, true, false, Option, List, [], ◌∷◌, ◌++◌, Text, same_text, same_text-eq, ◌≡◌, refl, sym, ap,
  ◌∙◌, arith, if◌then◌else◌,
}
use a2text.Base.Int.{ℤ}
use a2text.Config.Schema.{VoiceConfig}
use a2text.Settings.Document.{
  Entries, Edit, set, unset, run, get, Left, untouched, holds, or_else, left, settled, get-run,
  get-put, settled-or_else,
}
use a2text.Settings.Save.{
  Leaf, Value, section, section_of, edit_section, edit_sections, section_edits, top_edits,
  apply_to_map,
}

-- The value under `name.key`.
unfoldable pub value_at : {X : Type 0} → Text → Text → Entries (Value X) → Option (Leaf X)
value_at name key doc = get key (section_of (get name doc))

-- The edits of the sections of a name.
unfoldable pub edits_of :
    {X : Type 0} → Text → List (Text × List (Edit (Leaf X))) → List (Edit (Leaf X))
edits_of name [] = []
edits_of name ((n, edits) ∷ rest) =
    let others = edits_of name rest in if same_text name n then edits ++ others else others

or_else_assoc {ℓ} :
    {V : Type ℓ} (a b c : Left V) → or_else (or_else a b) c ≡ or_else a (or_else b c)
unfolding or_else
or_else_assoc untouched b c = refl
or_else_assoc (holds v) b c = refl

or_else-untouched {ℓ} : {V : Type ℓ} (a : Left V) → or_else a untouched ≡ a
unfolding or_else
or_else-untouched untouched = refl
or_else-untouched (holds v) = refl

left-append {ℓ} :
    {V : Type ℓ} (k : Text) (a b : List (Edit V)) → left k (a ++ b) ≡ or_else (left k b) (left k a)
unfolding left
left-append k [] b = sym (or_else-untouched (left k b))
left-append k (set j v ∷ a) b = rw (left-append k a b, or_else_assoc (left k b)) refl
left-append k (unset j ∷ a) b = rw (left-append k a b, or_else_assoc (left k b)) refl

value_at-edit_section :
    {X : Type 0} (name key n : Text) (edits : List (Edit (Leaf X))) (doc : Entries (Value X))
    → value_at name key (edit_section n edits doc)
      ≡ settled (if same_text name n then left key edits else untouched) (value_at name key doc)
unfolding value_at edit_section section_of settled
value_at-edit_section name key n edits doc =
    rw (get-put name n (section (run edits (section_of (get n doc)))) doc)
      (ground (arith, same_text-eq name n, get-run key edits (section_of (get n doc))))

-- What the sections hold after their edits.
pub value_at-edit_sections :
    {X : Type 0} (name key : Text) (table : List (Text × List (Edit (Leaf X))))
    (doc : Entries (Value X))
    → value_at name key (edit_sections table doc)
      ≡ settled (left key (edits_of name table)) (value_at name key doc)
unfolding edit_sections edits_of left settled
value_at-edit_sections name key [] doc = refl
value_at-edit_sections name key ((n, edits) ∷ rest) doc =
    rw
      (
        value_at-edit_sections name key rest (edit_section n edits doc),
        value_at-edit_section name key n edits doc,
        sym (
            settled-or_else (left key (edits_of name rest))
              (if same_text name n then left key edits else untouched) (value_at name key doc)),
      )
      (ap (λ l. settled l (value_at name key doc)) (joined (same_text name n)))
  where
    joined :
        (b : Bool)
        → or_else (left key (edits_of name rest)) (if b then left key edits else untouched)
          ≡ left key (if b then edits ++ edits_of name rest else edits_of name rest)
    joined true = sym (left-append key edits (edits_of name rest))
    joined false = or_else-untouched (left key (edits_of name rest))

-- After a save, `name.key` holds what the last edit of the section says of it, and with no edit what it held before,
-- for every name that is not one of the settings outside the sections.
pub value_at-apply_to_map :
    {X : Type 0} (duration : ℤ → Text) (cfg : VoiceConfig) (doc : Entries (Value X))
    (name key : Text)
    → left name (top_edits {X = X} duration cfg) ≡ untouched
    → value_at name key (apply_to_map duration cfg doc)
      ≡ settled (left key (edits_of name (section_edits duration cfg))) (value_at name key doc)
unfolding apply_to_map value_at settled
value_at-apply_to_map duration cfg doc name key free =
    rw
      (value_at-edit_sections name key (section_edits duration cfg)
        (run (top_edits duration cfg) doc))
      (ap
        (λ o.
          settled (left key (edits_of name (section_edits duration cfg))) (get key (section_of o)))
        (get-run name (top_edits duration cfg) doc ∙ ap (λ l. settled l (get name doc)) free))

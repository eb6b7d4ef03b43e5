-- ===== src/Settings/Kept.antt =====
-- What a reader of the saved file finds (internal/adapters/settings/save.go), and the list of modifiers, which is
-- joined and split again.
use a2text.Base.{
  ◌==◌, false, Option, none, some, List, [], ◌∷◌, ◌++◌, Text, trim_space, All, ◌≡◌, refl, arith,
}
use a2text.Settings.Save.{wrote, split_commas, join_commas, trimmed, split_trimmed}
use a2text.Settings.Shown.{Shows}

wrote-none :
    {Bytes : Type 0} (b : Bytes) (o : Option _)
    → (wrote b o).error ≡ none
    → ((wrote b o).written ≡ some b) × (o ≡ none)
wrote-none b none h = (refl, refl)
wrote-none b (some e) h = ground arith

abbrev pub IsCommaFree : Text → Type 0
IsCommaFree = All (λ c. (c == 44) ≡ false)

split_commas-append :
    (t u : Text)
    → IsCommaFree t
    → split_commas (t ++ 44 ∷ u) ≡ (t, (split_commas u).0 ∷ (split_commas u).1)
unfolding split_commas
split_commas-append [] u f = refl
split_commas-append (c ∷ t) u f = rw (split_commas-append t u f.1) (ground arith)

split_commas-IsCommaFree : (t : Text) → IsCommaFree t → split_commas t ≡ (t, [])
unfolding split_commas
split_commas-IsCommaFree [] f = refl
split_commas-IsCommaFree (c ∷ t) f = rw (split_commas-IsCommaFree t f.1) (ground arith)

-- The modifiers come back from the join and the split, trimmed and without the empty ones, if no comma is in them.
pub split_trimmed-join_commas :
    (modifiers : List Text)
    → All IsCommaFree modifiers
    → split_trimmed (join_commas modifiers) ≡ trimmed modifiers
unfolding split_trimmed join_commas trimmed trim_space
split_trimmed-join_commas [] f = refl
split_trimmed-join_commas (t ∷ []) f = rw (split_commas-IsCommaFree t f.0) refl
split_trimmed-join_commas (t ∷ u ∷ rest) f =
    rw (split_commas-append t (join_commas (u ∷ rest)) f.0)
      (ground (arith, split_trimmed-join_commas (u ∷ rest) f.1))

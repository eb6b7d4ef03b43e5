-- ===== src/Base/Trim.antt =====
-- Texts as lists of runes, and `strings.TrimSpace` on them.
use Prim.Native.Nat.{ℕ}
use mathlib.Core.Path.{◌≡◌, refl, ap, ◌∙◌}
use mathlib.Core.Logic.{inl, inr}
use mathlib.Core.Bool.{Bool, true, false, ◌||◌, ◌&&◌}
use mathlib.Core.List.{List, [], ◌∷◌}
use a2text.Base.Tests.{leb, ◌==◌, if◌then◌else◌, Bool-cases}

abbrev pub Text : Type 0
Text = List ℕ

abbrev pub is_empty : Text → Bool
is_empty [] = true
is_empty (c ∷ cs) = false

-- `unicode.IsSpace`
unfoldable pub is_space : ℕ → Bool
is_space c =
    (leb 9 c && leb c 13)
    || c == 32
    || c == 133
    || c == 160
    || c == 5760
    || (leb 8192 c && leb c 8202)
    || c == 8232
    || c == 8233
    || c == 8239
    || c == 8287
    || c == 12288

unfoldable pub trim_left : Text → Text
trim_left [] = []
trim_left (c ∷ cs) = let rest = trim_left cs in if is_space c then rest else c ∷ cs

-- A rune before a text that is trimmed at its end.
unfoldable pub onto : ℕ → Text → Text
onto c [] = if is_space c then [] else c ∷ []
onto c (d ∷ ds) = c ∷ d ∷ ds

unfoldable pub trim_right : Text → Text
unfolding onto
trim_right [] = []
trim_right (c ∷ cs) = onto c (trim_right cs)

unfoldable pub trim_space : Text → Text
unfolding trim_left trim_right
trim_space t = trim_right (trim_left t)

IsSolid : Text → Type 0
IsSolid [] = Unit
IsSolid (c ∷ cs) = is_space c ≡ false

trim_left-IsSolid : (t : Text) → IsSolid (trim_left t)
unfolding trim_left IsSolid
trim_left-IsSolid [] = tt
trim_left-IsSolid (c ∷ cs) = elim (Bool-cases (is_space c)) [
  | inl e ↦ rw e (trim_left-IsSolid cs)
  | inr e ↦ rw e e
]

trim_left_solid : (t : Text) → IsSolid t → trim_left t ≡ t
unfolding trim_left IsSolid
trim_left_solid [] h = refl
trim_left_solid (c ∷ cs) h = rw h refl

onto-IsSolid : (c : ℕ) (t : Text) → is_space c ≡ false → IsSolid (onto c t)
unfolding onto IsSolid
onto-IsSolid c [] h = rw h h
onto-IsSolid c (d ∷ ds) h = h

trim_right-IsSolid : (t : Text) → IsSolid t → IsSolid (trim_right t)
unfolding trim_right IsSolid
trim_right-IsSolid [] h = tt
trim_right-IsSolid (c ∷ cs) h = onto-IsSolid c (trim_right cs) h

trim_right-onto : (c : ℕ) (t : Text) → trim_right t ≡ t → trim_right (onto c t) ≡ onto c t
unfolding onto trim_right
trim_right-onto c [] e = elim (Bool-cases (is_space c)) [
  | inl space ↦ rw space refl
  | inr solid ↦ rw solid (rw solid refl)
]
trim_right-onto c (d ∷ ds) e = rw e refl

trim_right_idem : (t : Text) → trim_right (trim_right t) ≡ trim_right t
unfolding trim_right
trim_right_idem [] = refl
trim_right_idem (c ∷ cs) = trim_right-onto c (trim_right cs) (trim_right_idem cs)

-- A trimmed text is not changed by trimming it again.
pub trim_space-trim_space : (t : Text) → trim_space (trim_space t) ≡ trim_space t
unfolding trim_space
trim_space-trim_space t =
    ap trim_right
      (trim_left_solid (trim_space t) (trim_right-IsSolid (trim_left t) (trim_left-IsSolid t)))
    ∙ trim_right_idem (trim_left t)

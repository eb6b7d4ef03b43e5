-- ===== src/Base/Texts.antt =====
-- Texts written as literals, their equality, and the choice among a few of them.
use Prim.Native.Char.{code}
use Prim.Native.String.{String}
use mathlib.Core.Path.{◌≡◌, refl}
use mathlib.Core.Logic.{◌⊎◌, ◌↔◌}
use mathlib.Core.Bool.{Bool, true, false, ◌||◌}
use mathlib.Core.List.{List, [], ◌∷◌}
use native.Mathlib.Omega.{arith}
use a2text.Base.Tests.{◌==◌, if◌then◌else◌}
use a2text.Base.Trim.{Text}

-- The runes of a literal.
abbrev pub codes : String → Text
codes String.[] = []
codes (String.◌∷◌ c s) = code c ∷ codes s

unfoldable pub same_text : Text → Text → Bool
same_text [] [] = true
same_text (c ∷ cs) (d ∷ ds) = let rest = same_text cs ds in if c == d then rest else false
same_text _ _ = false

pub same_text-eq : (a b : Text) → same_text a b ≡ true → a ≡ b
unfolding same_text
same_text-eq [] [] h = refl
same_text-eq [] (d ∷ ds) h = ground arith
same_text-eq (c ∷ cs) [] h = ground arith
same_text-eq (c ∷ cs) (d ∷ ds) h = ground (arith, same_text-eq cs ds)

pub same_text_refl : (a : Text) → same_text a a ≡ true
unfolding same_text
same_text_refl [] = refl
same_text_refl (c ∷ cs) = ground (arith, same_text_refl cs)

-- `case a, b, c:` of a switch on a text.
unfoldable pub one_of : Text → List Text → Bool
one_of t [] = false
one_of t (a ∷ rest) = same_text t a || one_of t rest

-- A text is one of a list.
abbrev pub IsOneOf : Text → List Text → Type 0
IsOneOf t [] = ⊥
IsOneOf t (a ∷ []) = t ≡ a
IsOneOf t (a ∷ b ∷ rest) = (t ≡ a) ⊎ IsOneOf t (b ∷ rest)

pub one_of_iff : (t : Text) (texts : List Text) → (one_of t texts ≡ true) ↔ IsOneOf t texts
unfolding one_of
one_of_iff t [] = ground arith
one_of_iff t (a ∷ []) = ground (arith, same_text-eq t a, same_text_refl a)
one_of_iff t (a ∷ b ∷ rest) =
    ground (arith, same_text-eq t a, same_text_refl a, one_of_iff t (b ∷ rest))

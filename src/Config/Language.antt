-- ===== src/Config/Language.antt =====
-- `languagePattern` and `validateVoiceLanguage` (internal/infra/config/config.go).
use a2text.Base.{
  ℕ, ◌≤◌, leb, ◌==◌, ◌&&◌, ◌||◌, Bool, true, false, Option, none, some, [], ◌∷◌, ◌++◌, length,
  length-append, Text, is_empty, ◌≡◌, refl, subst, ◌↔◌, ◌⊎◌, inl, inr, Option-cases, arith,
  if◌then◌else◌,
}
use a2text.Config.Schema.{ConfigError, language_required, language_whitespace, language_pattern}

unfoldable pub is_alpha : ℕ → Bool
is_alpha c = (leb 65 c && leb c 90) || (leb 97 c && leb c 122)

unfoldable pub is_alphanumeric : ℕ → Bool
unfolding is_alpha
is_alphanumeric c = is_alpha c || (leb 48 c && leb c 57)

unfoldable pub all_of : (ℕ → Bool) → Text → Bool
all_of p [] = true
all_of p (c ∷ cs) = p c && all_of p cs

-- `[p]{2,8}`
is_subtag : (ℕ → Bool) → Text → Bool
is_subtag p t = leb 2 (length t) && leb (length t) 8 && all_of p t

-- The text before the first dash, and the text after it if there is one.
cut_dash : Text → Text × Option Text
cut_dash [] = ([], none)
cut_dash (c ∷ cs) =
    let rest = cut_dash cs in if c == 45 then ([], some cs) else (c ∷ rest.0, rest.1)

is_optional_subtag : Option Text → Bool
unfolding is_subtag
is_optional_subtag none = true
is_optional_subtag (some t) = is_subtag is_alphanumeric t

-- `languagePattern.MatchString`
unfoldable pub matches_language : Text → Bool
unfolding is_subtag cut_dash is_optional_subtag
matches_language t = is_subtag is_alpha (cut_dash t).0 && is_optional_subtag (cut_dash t).1

-- `strings.ContainsAny(t, " \t\r\n")`
contains_blank : Text → Bool
contains_blank [] = false
contains_blank (c ∷ cs) = c == 32 || c == 9 || c == 13 || c == 10 || contains_blank cs

unfoldable pub validate_voice_language : Text → Option ConfigError
unfolding contains_blank
validate_voice_language t =
    if is_empty t
    then some language_required
    else if contains_blank t
    then some language_whitespace
    else if matches_language t
    then none
    else some language_pattern

-- Two to eight runes of one kind.
pub record IsSubtag (p : ℕ → Bool) (t : Text) : Type 0 where
  pub lower : 2 ≤ length t
  pub upper : length t ≤ 8
  pub runes : all_of p t ≡ true

-- Two to eight letters, and after them nothing, or a dash and two to eight letters and digits.
pub record IsLanguage (t : Text) : Type 0 where
  pub primary : Text
  pub letters : IsSubtag is_alpha primary
  pub rest :
      (t ≡ primary) ⊎ ((sub : Text) × IsSubtag is_alphanumeric sub × (t ≡ primary ++ (45 ∷ sub)))

is_subtag_iff : (p : ℕ → Bool) (t : Text) → (is_subtag p t ≡ true) ↔ IsSubtag p t
unfolding is_subtag
is_subtag_iff p t = (
  λ h. record { lower = ground arith; upper = ground arith; runes = ground arith },
  λ s. ground (arith, s.lower, s.upper, s.runes),
)

cut_dash-none : (t : Text) → (cut_dash t).1 ≡ none → t ≡ (cut_dash t).0
unfolding cut_dash
cut_dash-none [] h = refl
cut_dash-none (c ∷ cs) h = ground (arith, cut_dash-none cs)

cut_dash-some : (t sub : Text) → (cut_dash t).1 ≡ some sub → t ≡ (cut_dash t).0 ++ (45 ∷ sub)
unfolding cut_dash
cut_dash-some [] sub h = ground arith
cut_dash-some (c ∷ cs) sub h = ground (arith, cut_dash-some cs sub)

cut_dash-letters : (t : Text) → all_of is_alpha t ≡ true → cut_dash t ≡ (t, none)
unfolding cut_dash all_of is_alpha
cut_dash-letters [] h = refl
cut_dash-letters (c ∷ cs) h = ground (arith, cut_dash-letters cs)

cut_dash-append :
    (t sub : Text) → all_of is_alpha t ≡ true → cut_dash (t ++ (45 ∷ sub)) ≡ (t, some sub)
unfolding cut_dash all_of is_alpha
cut_dash-append [] sub h = refl
cut_dash-append (c ∷ cs) sub h = ground (arith, cut_dash-append cs sub)

-- The pattern accepts a text exactly if two to eight letters are followed by nothing, or by a dash and two to eight
-- letters and digits.
pub matches_language_iff : (t : Text) → (matches_language t ≡ true) ↔ IsLanguage t
unfolding matches_language is_optional_subtag
matches_language_iff t = (to, from)
  where
    primary : matches_language t ≡ true → IsSubtag is_alpha (cut_dash t).0
    primary h = (is_subtag_iff is_alpha (cut_dash t).0).0 (ground (arith, matches_language))

    to : matches_language t ≡ true → IsLanguage t
    to h = elim (Option-cases (cut_dash t).1) [
      | inl e ↦ record {
        primary = (cut_dash t).0;
        letters = primary h;
        rest = inl (cut_dash-none t e);
      }
      | inr (sub, e) ↦ record {
        primary = (cut_dash t).0;
        letters = primary h;
        rest =
            inr (sub, (is_subtag_iff is_alphanumeric sub).0 (ground arith), cut_dash-some t sub e);
      }
    ]

    from : IsLanguage t → matches_language t ≡ true
    from l = elim l.rest [
      | inl e ↦ ground (
        arith,
        (is_subtag_iff is_alpha l.primary).1 l.letters,
        cut_dash-letters l.primary l.letters.runes,
      )
      | inr (sub, s, e) ↦ ground (
        arith,
        (is_subtag_iff is_alpha l.primary).1 l.letters,
        (is_subtag_iff is_alphanumeric sub).1 s,
        cut_dash-append l.primary sub l.letters.runes,
      )
    ]

contains_blank-letters : (t : Text) → all_of is_alpha t ≡ true → contains_blank t ≡ false
unfolding contains_blank all_of is_alpha
contains_blank-letters [] h = refl
contains_blank-letters (c ∷ cs) h = ground (arith, contains_blank-letters cs)

contains_blank-alphanumeric :
    (t : Text) → all_of is_alphanumeric t ≡ true → contains_blank t ≡ false
unfolding contains_blank all_of is_alphanumeric
contains_blank-alphanumeric [] h = refl
contains_blank-alphanumeric (c ∷ cs) h = ground (arith, contains_blank-alphanumeric cs)

contains_blank-append :
    (t u : Text) → contains_blank (t ++ u) ≡ (contains_blank t || contains_blank u)
unfolding contains_blank
contains_blank-append [] u = refl
contains_blank-append (c ∷ cs) u = ground (arith, contains_blank-append cs u)

IsLanguage-no_blank : (t : Text) → IsLanguage t → contains_blank t ≡ false
unfolding contains_blank
IsLanguage-no_blank t l = elim l.rest [
  | inl e ↦ rw e (contains_blank-letters l.primary l.letters.runes)
  | inr (sub, s, e) ↦ ground (
    arith,
    contains_blank-append l.primary (45 ∷ sub),
    contains_blank-letters l.primary l.letters.runes,
    contains_blank-alphanumeric sub s.runes,
  )
]

IsLanguage-some : (t : Text) → IsLanguage t → is_empty t ≡ false
IsLanguage-some [] l =
    let few : length l.primary ≤ 0 = elim l.rest [
      | inl e ↦ subst (λ (u : Text). length u ≤ 0) e (omega arith)
      | inr (sub, s, e) ↦
          let none_left : length (l.primary ++ (45 ∷ sub)) ≤ 0 =
            subst (λ (u : Text). length u ≤ 0) e (omega arith) in
          omega (arith, length-append l.primary (45 ∷ sub))
    ] in
    ground (arith, l.letters.lower)
IsLanguage-some (c ∷ cs) l = refl

-- The check passes a text exactly if it is a language tag: two to eight letters, and after them nothing, or a dash
-- and two to eight letters and digits.
pub validate_voice_language_iff : (t : Text) → (validate_voice_language t ≡ none) ↔ IsLanguage t
unfolding validate_voice_language
validate_voice_language_iff t = (
  λ h. (matches_language_iff t).0 (ground arith),
  λ l. ground (arith, IsLanguage-some t l, IsLanguage-no_blank t l, (matches_language_iff t).1 l),
)

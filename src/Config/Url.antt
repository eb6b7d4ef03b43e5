-- ===== src/Config/Url.antt =====
-- `validateHTTPURL` (internal/infra/config/config.go). `url.Parse` is a parameter: it gives the parts of a URL, or
-- nothing if the text is none.
use a2text.Base.{
  not, ◌&&◌, ◌||◌, Bool, true, false, Option, none, some, [], ◌∷◌, Text, codes, is_empty, same_text,
  same_text-eq, same_text_refl, ◌≡◌, refl, ◌↔◌, ◌⊎◌, inl, inr, Option-cases, arith, if◌then◌else◌,
}
use a2text.Config.Schema.{
  UrlName, UrlError, not_a_url, not_absolute, not_http, userinfo, query, ConfigError, bad_url,
}

-- What is read of a `url.URL`.
pub record Url : Type 0 where
  pub scheme : Text
  pub host : Text
  pub has_user : Bool
  pub raw_query : Text
  pub fragment : Text

unfoldable pub check_url : Url → Option UrlError
check_url u =
    if is_empty u.scheme || is_empty u.host
    then some not_absolute
    else if not (same_text u.scheme (codes "http")) && not (same_text u.scheme (codes "https"))
    then some not_http
    else if u.has_user
    then some userinfo
    else if not (is_empty u.raw_query)
    then some query
    else if not (is_empty u.fragment)
    then some UrlError.fragment
    else none

-- An absolute URL of http or https without userinfo, query and fragment.
pub record IsPlainHttp (u : Url) : Type 0 where
  pub http : (u.scheme ≡ codes "http") ⊎ (u.scheme ≡ codes "https")
  pub hosted : is_empty u.host ≡ false
  pub no_user : u.has_user ≡ false
  pub no_query : u.raw_query ≡ []
  pub no_fragment : u.fragment ≡ []

is_empty-nil : (t : Text) → is_empty t ≡ true → t ≡ []
is_empty-nil [] h = refl
is_empty-nil (c ∷ cs) h = ground arith

check_url_iff : (u : Url) → (check_url u ≡ none) ↔ IsPlainHttp u
unfolding check_url
check_url_iff u = (
  λ h. record {
    http =
        ground (arith, same_text-eq u.scheme (codes "http"), same_text-eq u.scheme (codes "https"));
    hosted = ground arith;
    no_user = ground arith;
    no_query = is_empty-nil u.raw_query (ground arith);
    no_fragment = is_empty-nil u.fragment (ground arith);
  },
  λ p. elim p.http [
    | inl e ↦
        rw
          (
            check_url,
            e,
            p.hosted,
            p.no_user,
            p.no_query,
            p.no_fragment,
            same_text_refl (codes "http"),
          )
          refl
    | inr e ↦
        rw
          (
            check_url,
            e,
            p.hosted,
            p.no_user,
            p.no_query,
            p.no_fragment,
            same_text_refl (codes "https"),
          )
          (ground arith)
  ],
)

named : UrlName → Option UrlError → Option ConfigError
named name none = none
named name (some e) = some (bad_url name e)

module _ (parse : Text → Option Url) where
  unfoldable pub validate_http_url : UrlName → Text → Option ConfigError
  unfolding named
  validate_http_url name raw = elim (parse raw) [
    | none ↦ some (bad_url name not_a_url)
    | some u ↦ named name (check_url u)
  ]

  -- The text parses to an absolute URL of http or https without userinfo, query and fragment.
  abbrev pub IsHttpUrl : Text → Type 0
  IsHttpUrl raw = (u : Url) × (parse raw ≡ some u) × IsPlainHttp u

  pub validate_http_url_iff :
      (name : UrlName) (raw : Text) → (validate_http_url name raw ≡ none) ↔ IsHttpUrl raw
  unfolding validate_http_url
  validate_http_url_iff name raw = elim (Option-cases (parse raw)) [
    | inl e ↦ rw (validate_http_url, e) (λ h. ground arith, λ p. ground arith)
    | inr (u, e) ↦ (
      λ h. (u, e, (check_url_iff u).0 (ground arith)),
      λ (v, f, p). ground (arith, (check_url_iff v).1 p),
    )
  ]

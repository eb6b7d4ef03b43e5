-- ===== src/Stt/Reply.antt =====
-- What one call of a backend returns: a text, or an error of any type.
use a2text.Base.{String, ◌≡◌, refl, ◌⊎◌, inl, inr}

pub data Reply {ℓ} (E : Type ℓ) : Type ℓ where
  ok : String → Reply E
  failed : E → Reply E

pub Reply-cases {ℓ} :
    {E : Type ℓ} (r : Reply E) → ((t : String) × (r ≡ ok t)) ⊎ ((e : E) × (r ≡ failed e))
Reply-cases (ok t) = inl (t, refl)
Reply-cases (failed e) = inr (e, refl)

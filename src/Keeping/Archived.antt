-- ===== src/Keeping/Archived.antt =====
-- What the archiver promises (pkg/audioarchive/archiver.go).
use a2text.Base.{
  ℕ, Bool-cases, Option, Option-cases, none, some, ◌∷◌, ◌++◌, map, Text, codes, is_empty, same_text,
  arith, ◌≢◌, ◌≡◌, refl, ◌⊎◌, inl, inr,
}
use a2text.Keeping.Archive.{
  Effect, Trace, ArchiveError, Archived, Disk, normalise, make_name, write_archive, written, in_dir,
  archive,
}

abbrev pub partial_of : Text → Text
partial_of final = final ++ codes ".partial"

-- The whole file was written under the partial name, without an error.
pub data IsWritten (d : Disk) (src final : Text) : Trace → Type 0 where
  copied :
      {tr : Trace}
      → d.copy (Effect.copy src (partial_of final) ∷ tr) ≡ none
      → IsWritten d src final (Effect.copy src (partial_of final) ∷ tr)
  encoded :
      {tr : Trace}
      → d.encode (Effect.encode src (partial_of final) ∷ tr) ≡ none
      → IsWritten d src final (Effect.encode src (partial_of final) ∷ tr)

-- The file was renamed, and the rename gave no error.
pub record IsRenamed (d : Disk) (src final : Text) (tr : Trace) : Type 0 where
  pub before_it : Trace
  pub last_is : tr ≡ Effect.rename (partial_of final) final ∷ before_it
  pub no_error : d.rename tr ≡ none
  pub whole : IsWritten d src final before_it

-- What a result says of the trace: a refused argument leaves it, a directory that cannot be made is its only new
-- effect, and any other failure removes the partial file last.
abbrev pub Keeps : Disk → Text → Text → Trace → Archived × Trace → Type 0
Keeps d src final before (Archived.saved p, tr) = (p ≡ final) × IsRenamed d src final tr
Keeps d src final before (Archived.failed e, tr) =
    ((tr ≡ before) × ((e ≡ ArchiveError.empty_source) ⊎ (e ≡ ArchiveError.empty_dir)))
    ⊎ ((dir : Text) × (tr ≡ Effect.make_dir dir ∷ before) × (d.make_dir tr ≢ none))
    ⊎ ((tr' : Trace) × (tr ≡ Effect.remove (partial_of final) ∷ tr'))

module _ (to_lower : ℕ → ℕ) (d : Disk) where
  -- The outcome of the write, and the trace that it leaves.
  abbrev Writes : Text → Text → Option ArchiveError × Trace → Type 0
  Writes src final (none, tr) = IsWritten d src final tr
  Writes src final (some e, tr) = Unit

  write_archive-Writes :
      (src final format : Text) (tr : Trace)
      → Writes src final (write_archive to_lower d src (partial_of final) format tr)
  unfolding write_archive normalise
  write_archive-Writes src final format tr =
      elim (Bool-cases (same_text (map to_lower format) (codes "ogg"))) [
        | inr e ↦ elim (Option-cases (d.copy (Effect.copy src (partial_of final) ∷ tr))) [
          | inl h ↦ rw (write_archive, normalise, e, h) (IsWritten.copied h)
          | inr (x, h) ↦ rw (write_archive, normalise, e, h) tt
        ]
        | inl e ↦ elim (Bool-cases d.has_transcoder) [
          | inr t ↦ rw (write_archive, normalise, e, t) tt
          | inl t ↦ elim (Option-cases (d.encode (Effect.encode src (partial_of final) ∷ tr))) [
            | inl h ↦ rw (write_archive, normalise, e, t, h) (IsWritten.encoded h)
            | inr (x, h) ↦ rw (write_archive, normalise, e, t, h) tt
          ]
        ]
      ]

  written-Keeps :
      (src final : Text) (before : Trace) (r : Option ArchiveError × Trace)
      → Writes src final r
      → Keeps d src final before (written to_lower d (partial_of final) final r)
  unfolding written
  written-Keeps src final before (some e, tr) w = inr (inr (tr, refl))
  written-Keeps src final before (none, tr) w =
      elim (Option-cases (d.rename (Effect.rename (partial_of final) final ∷ tr))) [
        | inl h ↦
            rw (written, h)
              (refl, record { before_it = tr; last_is = refl; no_error = h; whole = w })
        | inr (x, h) ↦
            rw (written, h) (inr (inr (Effect.rename (partial_of final) final ∷ tr, refl)))
      ]

  -- A path that is returned was written whole under its partial name and then renamed without an error; a failure
  -- leaves the trace if an argument is empty, or only a directory that could not be made, or ends with the removal of
  -- the partial file.
  pub archive-Keeps :
      (src dest format : Text) (before : Trace)
      → Keeps d src
          (d.path_of dest (make_name to_lower d format))
          before
          (archive to_lower d src dest format before)
  unfolding archive in_dir
  archive-Keeps src dest format before = elim (Bool-cases (is_empty src)) [
    | inl e ↦ rw (archive, e) (inl (refl, inl refl))
    | inr e ↦ elim (Bool-cases (is_empty dest)) [
      | inl e' ↦ rw (archive, e, e') (inl (refl, inr refl))
      | inr e' ↦ elim (Option-cases (d.make_dir (Effect.make_dir dest ∷ before))) [
        | inr (x, h) ↦ rw (archive, e, e', h) (inr (inl (dest, refl, λ n. ground (arith, h, n))))
        | inl h ↦
            let final = d.path_of dest (make_name to_lower d format) in
            rw (archive, e, e', h)
              (written-Keeps src final before
                (write_archive to_lower d src (partial_of final) format
                  (Effect.make_dir dest ∷ before))
                (write_archive-Writes src final format (Effect.make_dir dest ∷ before)))
      ]
    ]
  ]

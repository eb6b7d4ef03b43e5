-- ===== src/Keeping/Downloaded.antt =====
-- What a downloaded model holds (pkg/whispercpp/download.go).
use a2text.Base.{
  ℕ, false, Bool-cases, Option, Option-cases, none, some, List, [], ◌∷◌, ◌++◌, append_assoc, Text,
  String, Bytes, is_empty, ◌≡◌, refl, sym, ◌∙◌, subst, ◌⊎◌, inl, inr, arith,
}
use a2text.Keeping.Download.{
  Status, Read, stopped, fails_to_write, copy_with_progress, Source, Effect, Trace, FetchError,
  write_partial, partial_of, after_write, fetch_one, Outcome, is_present, or_later, or_default,
  try_all_sources, download,
}

-- Whether a source is one of a list.
pub data Among (s : Source) : List Source → Type 0 where
  here : {ss : List Source} → Among s (s ∷ ss)
  there : {t : Source} {ss : List Source} → Among s ss → Among s (t ∷ ss)

-- A body that is read to its end holds these bytes: each read's, up to the one that meets the end.
pub data IsBody : List Read → Bytes → Type 0 where
  last : {r : Read} {rs : List Read} → r.status ≡ Status.eof → IsBody (r ∷ rs) r.bytes
  next :
      {r : Read} {rs : List Read} {bs : Bytes}
      → r.status ≡ Status.more
      → IsBody rs bs
      → IsBody (r ∷ rs) (r.bytes ++ bs)

Status-cases :
    (s : Status) → (s ≡ Status.more) ⊎ (s ≡ Status.eof) ⊎ ((e : String) × (s ≡ Status.broken e))
Status-cases Status.more = inl refl
Status-cases Status.eof = inr (inl refl)
Status-cases (Status.broken e) = inr (inr (e, refl))

stopped-none : (r : Read) → stopped r ≡ none → r.status ≡ Status.more
unfolding stopped
stopped-none r h = elim (Status-cases r.status) [
  | inl e ↦ e
  | inr (inl e) ↦ ground arith
  | inr (inr (x, e)) ↦ ground arith
]

stopped-end :
    (r : Read) → stopped r ≡ some none → (r.status ≡ Status.eof) × (fails_to_write r ≡ false)
unfolding stopped fails_to_write
stopped-end r h = elim (Status-cases r.status) [
  | inl e ↦ ground arith
  | inr (inl e) ↦ (e, ground arith)
  | inr (inr (x, e)) ↦ ground arith
]

-- A copy without an error has written all bytes of the body behind those before.
copy_with_progress-IsBody :
    (rs : List Read) (done : Bytes)
    → (copy_with_progress rs done).0 ≡ none
    → (bs : Bytes) × IsBody rs bs × ((copy_with_progress rs done).1 ≡ done ++ bs)
unfolding copy_with_progress
copy_with_progress-IsBody [] done h = ground arith
copy_with_progress-IsBody (r ∷ rs) done h = elim (Option-cases (stopped r)) [
  | inl e ↦
      let (bs, body, all) = copy_with_progress-IsBody rs (done ++ r.bytes) (ground arith) in
      (
        r.bytes ++ bs,
        IsBody.next (stopped-none r e) body,
        rw (copy_with_progress, e) (all ∙ append_assoc done r.bytes bs),
      )
  | inr (none, e) ↦
      let (eof, fine) = stopped-end r e in
      (r.bytes, IsBody.last eof, rw (copy_with_progress, e, fine) refl)
  | inr (some x, e) ↦ ground arith
]

-- The model is in its place: renamed from a partial file that held the whole body of a source.
pub data IsInPlace (final : Text) (sources : List Source) : Trace → Type 0 where
  placed :
      {s : Source} {bs : Bytes} {tr : Trace}
      → Among s sources
      → IsBody s.body bs
      → IsInPlace final sources
          (Effect.renamed (partial_of final) final bs ∷ Effect.wrote (partial_of final) bs ∷ tr)

write_partial-IsBody : (s : Source) → (write_partial s).0 ≡ none → IsBody s.body (write_partial s).1
unfolding write_partial
write_partial-IsBody s h = elim (Option-cases s.create_error) [
  | inr (e, c) ↦ ground arith
  | inl c ↦ elim (Option-cases (copy_with_progress s.body []).0) [
    | inr (e, f) ↦ ground arith
    | inl f ↦
        let (bs, body, all) = copy_with_progress-IsBody s.body [] f in
        rw (write_partial, c) (subst (IsBody s.body) (sym all) body)
  ]
]

-- What a fetch leaves that ends without an error.
abbrev Fetches : Text → Source → Trace → Option FetchError × Trace → Type 0
Fetches final s tr (none, tr') =
    (bs : Bytes) × IsBody s.body bs
    × (tr' ≡ Effect.renamed (partial_of final) final bs ∷ Effect.wrote (partial_of final) bs ∷ tr)
Fetches final s tr (some e, tr') = Unit

after_write-Fetches :
    (final : Text) (s : Source) (tr : Trace) (r : Option FetchError × Bytes)
    → (r.0 ≡ none → IsBody s.body r.1)
    → Fetches final s tr (after_write s final tr r)
unfolding after_write
after_write-Fetches final s tr (some e, bs) h = tt
after_write-Fetches final s tr (none, bs) h = elim (Option-cases s.rename_error) [
  | inr (e, r) ↦ rw (after_write, r) tt
  | inl r ↦ elim (Option-cases s.body_close_error) [
    | inr (e, c) ↦ rw (after_write, r, c) tt
    | inl c ↦ rw (after_write, r, c) (bs, h refl, refl)
  ]
]

fetch_one-Fetches :
    (final : Text) (s : Source) (tr : Trace) → Fetches final s tr (fetch_one s final tr)
unfolding fetch_one
fetch_one-Fetches final s tr = elim (Option-cases s.open_error) [
  | inr (e, o) ↦ rw (fetch_one, o) tt
  | inl o ↦
      let same : fetch_one s final tr ≡ after_write s final tr (write_partial s) =
        rw (fetch_one, o) refl in
      subst (Fetches final s tr) (sym same)
        (after_write-Fetches final s tr (write_partial s) (write_partial-IsBody s))
]

Among-IsInPlace :
    {final : Text} {t : Source} {ss : List Source} {tr : Trace}
    → IsInPlace final ss tr
    → IsInPlace final (t ∷ ss) tr
Among-IsInPlace (IsInPlace.placed m b) = IsInPlace.placed (Among.there m) b

-- A result and its trace.
abbrev Places : Text → List Source → Outcome × Trace → Type 0
Places final ss r = r.0 ≡ Outcome.saved → IsInPlace final ss r.1

or_later-Places :
    (final : Text) (s : Source) (ss : List Source) (tr : Trace) (r : Option FetchError × Trace)
    (later : Outcome × Trace)
    → Fetches final s tr r
    → Places final ss later
    → Places final (s ∷ ss) (or_later r later)
unfolding or_later
or_later-Places final s ss tr (none, tr') later (bs, body, same) p h =
    subst (IsInPlace final (s ∷ ss)) (sym same) (IsInPlace.placed Among.here body)
or_later-Places final s ss tr (some e, tr') later f p h = Among-IsInPlace (p h)

try_all_sources-Places :
    (ctx_err : Trace → Option String) (path_of : Text → Text → Text) (final : Text)
    (ss : List Source) (prev : Option FetchError) (tr : Trace)
    → Places final ss (try_all_sources ctx_err path_of final ss prev tr)
unfolding try_all_sources
try_all_sources-Places ctx_err path_of final [] prev tr = λ h. ground arith
try_all_sources-Places ctx_err path_of final (s ∷ ss) prev tr = elim (Option-cases (ctx_err tr)) [
  | inr (e, c) ↦ λ h. ground arith
  | inl c ↦
      rw (try_all_sources, c)
        (or_later-Places final s ss tr (fetch_one s final tr)
          (try_all_sources ctx_err path_of final ss (fetch_one s final tr).0
            (fetch_one s final tr).1)
          (fetch_one-Fetches final s tr)
          (try_all_sources-Places ctx_err path_of final ss (fetch_one s final tr).0
            (fetch_one s final tr).1))
]

-- If `Download` saves a model, its last effects are that the partial file was written with the whole body of one of the
-- configured sources, or of the default ones if none is configured, up to the end of that body, and renamed to the model's path.
pub download-IsInPlace :
    (ctx_err : Trace → Option String) (path_of : Text → Text → Text) (model_file dest_dir : Text)
    (mkdir_error : Option String) (size : Option ℕ) (default_sources sources : List Source)
    (tr : Trace)
    → (download ctx_err path_of model_file dest_dir mkdir_error size default_sources sources tr).0
      ≡ Outcome.saved
    → IsInPlace
        (path_of dest_dir model_file)
        (or_default default_sources sources)
        (download ctx_err path_of model_file dest_dir mkdir_error size default_sources sources tr).1
unfolding download
download-IsInPlace ctx_err path_of model_file dest_dir mkdir_error size default_sources sources tr
      h =
    elim (Bool-cases (is_empty model_file)) [
      | inl e ↦ ground arith
      | inr e ↦ elim (Bool-cases (is_empty dest_dir)) [
        | inl e' ↦ ground arith
        | inr e' ↦ elim (Option-cases mkdir_error) [
          | inr (x, m) ↦ ground arith
          | inl m ↦ elim (Bool-cases (is_present size)) [
            | inl z ↦ ground arith
            | inr z ↦
                rw (download, e, e', m, z)
                  (try_all_sources-Places ctx_err path_of (path_of dest_dir model_file)
                    (or_default default_sources sources) none tr (ground arith))
          ]
        ]
      ]
    ]

-- ===== src/Cycle/Delivery.antt =====
-- What a cycle delivers (internal/usecases/voice/voice.go and streaming.go).
use a2text.Base.{
  ℕ, Bool, false, Bool-cases, Option, Option-cases, none, some, List, [], ◌∷◌, Text, ◌≡◌, refl, sym,
  subst, ◌⊎◌, inl, inr, is_empty, trim_space, trim_space-trim_space,
}
use a2text.Base.Int.{ℤ}
use a2text.Domain.{deliver_phase}
use a2text.Cycle.World.{
  Answer-cases, Effect, Trace, StreamResult, Output, World, cycle_error, CycleError, Result,
  CycleResult,
}
use a2text.Cycle.Pipeline.{
  record_and_validate, run_archiver, archive_and_cleanup, deliver_text, transcribe_and_deliver,
  transcribe_unless_cancelled, finalise_stream, then_do, sequential_rest, sequential_cycle,
  streaming_rest, close_stream_silently, streaming_cycle, pre_snapshot_clipboard,
  validate_cycle_args, cycle,
}
use a2text.Cycle.Holding.{record_and_validate_cases}

-- The texts that were handed to an output, the latest first.
abbrev pub deliveries : Trace → List Text
deliveries [] = []
deliveries (Effect.deliver n t ∷ tr) = t ∷ deliveries tr
deliveries (_ ∷ tr) = deliveries tr

-- A text that may be delivered.
pub record IsClear (t : Text) : Type 0 where
  pub trimmed : trim_space t ≡ t
  pub something : is_empty t ≡ false

-- What a result says of the deliveries before and after. Behind the checks on the arguments, every error has a phase.
abbrev pub Promise : Result CycleResult → List Text → List Text → Type 0
Promise (Result.ok r) before after = IsClear r.text × (after ≡ r.text ∷ before)
Promise (Result.err (cycle_error deliver_phase x)) before after =
    (after ≡ before) ⊎ ((t : Text) × IsClear t × (after ≡ t ∷ before))
Promise (Result.err (cycle_error phase x)) before after = after ≡ before
Promise (Result.err _) before after = ⊥

-- A result with its trace, after the deliveries before.
abbrev Keeps : Result CycleResult × Trace → List Text → Type 0
Keeps (r, tr) before = Promise r before (deliveries tr)

deliver_text-Keeps :
    (w : World) (out : Output) (tr : Trace) (raw : Text) (took size : ℕ)
    → Keeps (deliver_text w out tr raw took size) (deliveries tr)
unfolding deliver_text
deliver_text-Keeps w out tr raw took size = elim (Bool-cases (is_empty (trim_space raw))) [
  | inl e ↦ rw (deliver_text, e) refl
  | inr e ↦ elim (Option-cases (w.ctx_err tr)) [
    | inr (x, c) ↦ rw (deliver_text, e, c) (inl refl)
    | inl c ↦
        elim (Option-cases
          (out.deliver (Effect.deliver out.name (trim_space raw) ∷ tr) (trim_space raw))) [
            | inl d ↦ rw (deliver_text, e, c, d) (clear e, refl)
            | inr (x, d) ↦ rw (deliver_text, e, c, d) (inr (_, clear e, refl))
          ]
  ]
]
  where
    clear : is_empty (trim_space raw) ≡ false → IsClear (trim_space raw)
    clear e = record { trimmed = trim_space-trim_space raw; something = e }

deliveries-archive_and_cleanup :
    (w : World) (tr : Trace) (path : Text)
    → deliveries (archive_and_cleanup w tr path) ≡ deliveries tr
unfolding archive_and_cleanup run_archiver
deliveries-archive_and_cleanup w tr path = elim (Bool-cases (w.has_archiver)) [
  | inl e ↦ rw (e, archive_and_cleanup, run_archiver) refl
  | inr e ↦ rw (e, archive_and_cleanup, run_archiver) refl
]

transcribe_and_deliver-Keeps :
    (w : World) (tr : Trace) (path : Text) (size : ℕ) (lang : Text)
    → Keeps (transcribe_and_deliver w tr path size lang) (deliveries tr)
unfolding transcribe_and_deliver
transcribe_and_deliver-Keeps w tr path size lang =
    elim (Answer-cases ((w.transcriber tr).transcribe tr' path lang)) [
      | inl (raw, e) ↦
          rw (transcribe_and_deliver, e)
            (deliver_text-Keeps w (w.output tr) tr' raw (w.since tr') size)
      | inr (x, e) ↦ rw (transcribe_and_deliver, e) refl
    ]
  where
    tr' : Trace
    tr' = Effect.transcribe (w.transcriber tr).name path lang ∷ tr

finalise_stream-Keeps :
    (w : World) (tr : Trace) (stream : Trace → Text → StreamResult) (lang : Text) (size : ℕ)
    → Keeps (finalise_stream w tr stream lang size) (deliveries tr)
unfolding finalise_stream
finalise_stream-Keeps w tr stream lang size = elim (Option-cases (w.ctx_err tr)) [
  | inl e ↦ rw (finalise_stream, e) (deliver_text-Keeps w (w.output tr') tr' _ _ size)
  | inr (x, e) ↦ rw (finalise_stream, e) refl
]
  where
    tr' : Trace
    tr' = Effect.join_stream ∷ tr

-- A deferred call that delivers nothing.
then_do-Keeps :
    (f : Trace → Trace)
    → ((t : Trace) → deliveries (f t) ≡ deliveries t)
    → (r : Result CycleResult × Trace) (before : List Text) → Keeps r before
    → Keeps (then_do f r) before
then_do-Keeps f quiet (r, tr) before k = subst (Promise r before) (sym (quiet tr)) k

sequential_rest-Keeps :
    (w : World) (tr : Trace) (path : Text) (size : ℕ) (lang : Text)
    → Keeps (sequential_rest w lang (Result.ok (path, size), tr)) (deliveries tr)
unfolding sequential_rest
sequential_rest-Keeps w tr path size lang =
    then_do-Keeps (λ t. archive_and_cleanup w t path) (λ t. deliveries-archive_and_cleanup w t path)
      (transcribe_unless_cancelled w tr path size lang) (deliveries tr)
      (elim (Option-cases (w.ctx_err tr)) [
        | inl e ↦
            rw (transcribe_unless_cancelled, e) (transcribe_and_deliver-Keeps w tr path size lang)
        | inr (x, e) ↦ rw (transcribe_unless_cancelled, e) refl
      ])

sequential_cycle-Keeps :
    (w : World) (tr : Trace) (max : ℤ) (lang : Text)
    → Keeps (sequential_cycle w tr max lang) (deliveries tr)
unfolding sequential_cycle sequential_rest
sequential_cycle-Keeps w tr max lang = elim (record_and_validate_cases w tr max) [
  | inl (e, eq) ↦ subst (λ r. Keeps (sequential_rest w lang r) (deliveries tr)) (sym eq) refl
  | inr (inl (path, e, bad, eq)) ↦
      subst (λ r. Keeps (sequential_rest w lang r) (deliveries tr)) (sym eq) refl
  | inr (inr (path, size, eq)) ↦
      subst (λ r. Keeps (sequential_rest w lang r) (deliveries tr)) (sym eq)
        (sequential_rest-Keeps w _ path size lang)
]

streaming_rest-Keeps :
    (w : World) (stream : Trace → Text → StreamResult) (lang : Text) (tr : Trace) (max : ℤ)
    → Keeps (streaming_rest w stream lang (record_and_validate w tr max)) (deliveries tr)
unfolding streaming_rest close_stream_silently
streaming_rest-Keeps w stream lang tr max = elim (record_and_validate_cases w tr max) [
  | inl (x, eq) ↦ subst (λ r. Keeps (streaming_rest w stream lang r) (deliveries tr)) (sym eq) refl
  | inr (inl (path, e, bad, eq)) ↦
      subst (λ r. Keeps (streaming_rest w stream lang r) (deliveries tr)) (sym eq) refl
  | inr (inr (path, size, eq)) ↦
      subst (λ r. Keeps (streaming_rest w stream lang r) (deliveries tr)) (sym eq)
        (then_do-Keeps (λ t. archive_and_cleanup w t path)
          (λ t. deliveries-archive_and_cleanup w t path) (finalise_stream w _ stream lang size)
          (deliveries tr) (finalise_stream-Keeps w _ stream lang size))
]

streaming_cycle-Keeps :
    (w : World) (tr : Trace) (name : ℕ) (stream : Trace → Text → StreamResult) (max : ℤ)
    (lang : Text)
    → Keeps (streaming_cycle w tr name stream max lang) (deliveries tr)
unfolding streaming_cycle close_stream_silently
streaming_cycle-Keeps w tr name stream max lang = elim (Option-cases (w.start_streaming_pcm tr)) [
  | inr (x, e) ↦
      rw (streaming_cycle, e) (sequential_cycle-Keeps w (Effect.pcm_failed ∷ tr) max lang)
  | inl e ↦
      rw (streaming_cycle, e)
        (then_do-Keeps close_stream_silently (λ t. refl)
          (streaming_rest w stream lang (record_and_validate w _ max)) (deliveries tr)
          (streaming_rest-Keeps w stream lang _ max))
]

deliveries-pre_snapshot_clipboard :
    (w : World) (tr : Trace) → deliveries (pre_snapshot_clipboard w tr) ≡ deliveries tr
unfolding pre_snapshot_clipboard
deliveries-pre_snapshot_clipboard w tr = elim (Bool-cases (w.output tr).can_snapshot) [
  | inl e ↦ rw (pre_snapshot_clipboard, e) refl
  | inr e ↦ rw (pre_snapshot_clipboard, e) refl
]

-- What the checks on the arguments say of a cycle's result and trace.
abbrev pub CycleKeeps : Option CycleError → Result CycleResult × Trace → Trace → Type 0
CycleKeeps (some e) r tr = r ≡ (Result.err e, tr)
CycleKeeps none r tr = Keeps r (deliveries tr)

-- A cycle whose arguments are refused does nothing but return that error. Otherwise, a cycle that succeeds has handed
-- its result's text to an output, once, and that text is trimmed and not empty; one that fails while delivering has
-- handed over nothing or such a text, once; one that fails before has handed over nothing, and its error has a phase.
pub cycle-Keeps :
    (w : World) (tr : Trace) (has_contexts : Bool) (max : ℤ) (lang : Text)
    → CycleKeeps
        (validate_cycle_args has_contexts max (trim_space lang))
        (cycle w tr has_contexts max lang)
        tr
unfolding cycle
cycle-Keeps w tr has_contexts max raw =
    elim (Option-cases (validate_cycle_args has_contexts max (trim_space raw))) [
      | inr (e, eq) ↦ rw (cycle, eq) refl
      | inl eq ↦ elim (Option-cases (w.transcriber tr').stream) [
        | inl plain ↦
            rw (cycle, eq, plain)
              (subst (Keeps (sequential_cycle w tr' max (trim_space raw))) same
                (sequential_cycle-Keeps w tr' max (trim_space raw)))
        | inr (stream, streams) ↦
            rw (cycle, eq, streams)
              (subst
                (Keeps (streaming_cycle w tr' (w.transcriber tr').name stream max (trim_space raw)))
                same (streaming_cycle-Keeps w tr' _ stream max (trim_space raw)))
      ]
    ]
  where
    tr' : Trace
    tr' = pre_snapshot_clipboard w tr

    same : deliveries tr' ≡ deliveries tr
    same = deliveries-pre_snapshot_clipboard w tr

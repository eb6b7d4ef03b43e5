-- ===== src/Cycle/Holding.antt =====
-- The temporary file, the capture and the streamer through the phases of a cycle (internal/usecases/voice/voice.go
-- and streaming.go).
use a2text.Base.{
  ℕ, Bool, true, false, Bool-cases, Option, Option-cases, none, some, [], ◌∷◌, Text, ◌≡◌, refl, sym,
  subst, ◌⊎◌, inl, inr, arith, is_empty,
}
use a2text.Base.Int.{ℤ}
use a2text.Domain.{record_phase}
use a2text.Cycle.World.{
  Answer-cases, Effect, Trace, StreamResult, Output, World, Cause, external, empty_path,
  not_regular, cycle_error, Result,
}
use a2text.Cycle.Pipeline.{
  validate_recorded_file, record_and_validate, run_archiver, archive_and_cleanup, deliver_text,
  transcribe_and_deliver, finalise_stream,
}

-- The recorded file that is on disk, from the recorder's return on.
abbrev pub held : Trace → Option Text
held [] = none
held (Effect.recorded p ∷ tr) = some p
held (Effect.remove p ∷ tr) = none
held (_ ∷ tr) = held tr

abbrev pub is_capturing : Trace → Bool
is_capturing [] = false
is_capturing (Effect.start_pcm ∷ tr) = true
is_capturing (Effect.close_pcm ∷ tr) = false
is_capturing (_ ∷ tr) = is_capturing tr

abbrev pub is_streaming : Trace → Bool
is_streaming [] = false
is_streaming (Effect.spawn_stream n l ∷ tr) = true
is_streaming (Effect.join_stream ∷ tr) = false
is_streaming (_ ∷ tr) = is_streaming tr

-- A file is validated, transcribed, archived and removed only while it is on disk, and recorded only when no other is.
abbrev pub IsTidy : Trace → Type 0
IsTidy [] = Unit
IsTidy (Effect.recorded p ∷ tr) = (held tr ≡ none) × IsTidy tr
IsTidy (Effect.validated p s ∷ tr) = (held tr ≡ some p) × IsTidy tr
IsTidy (Effect.transcribe n p l ∷ tr) = (held tr ≡ some p) × IsTidy tr
IsTidy (Effect.archive p ∷ tr) = (held tr ≡ some p) × IsTidy tr
IsTidy (Effect.remove p ∷ tr) = (held tr ≡ some p) × IsTidy tr
IsTidy (_ ∷ tr) = IsTidy tr

pub record IsHolding (file : Option Text) (capturing streaming : Bool) (tr : Trace) : Type 0 where
  pub tidy : IsTidy tr
  pub file_is : held tr ≡ file
  pub capture_is : is_capturing tr ≡ capturing
  pub stream_is : is_streaming tr ≡ streaming

-- Between cycles: no file, no capture, no streamer.
abbrev pub IsClean : Trace → Type 0
IsClean = IsHolding none false false

validation :
    (w : World) (tr : Trace) (path : Text)
    → ((e : Cause) × (validate_recorded_file w tr path ≡ Result.err (cycle_error record_phase e)))
      ⊎ ((size : ℕ) × (validate_recorded_file w tr path ≡ Result.ok size))
unfolding validate_recorded_file
validation w tr path = elim (Answer-cases (w.stat tr path)) [
  | inr (e, failed) ↦ inl (external e, rw (validate_recorded_file, failed) refl)
  | inl ((true, size), st) ↦ inr (size, rw (validate_recorded_file, st) refl)
  | inl ((false, size), st) ↦ inl (not_regular, rw (validate_recorded_file, st) refl)
]

-- The result and the trace of a recording: there is no path, its file does not pass, or it does.
pub record_and_validate_cases :
    (w : World) (tr : Trace) (max : ℤ)
    → ((e : Cause) × (record_and_validate w tr max
          ≡ (Result.err (cycle_error record_phase e), Effect.record_to_file max ∷ tr)))
      ⊎ ((path : Text) × (e : Cause) × (validate_recorded_file w
              (Effect.recorded path ∷ Effect.record_to_file max ∷ tr)
              path
            ≡ Result.err (cycle_error record_phase e))
          × (record_and_validate w tr max ≡ (
            Result.err (cycle_error record_phase e),
            Effect.recorded path ∷ Effect.record_to_file max ∷ tr,
          )))
      ⊎ ((path : Text) × (size : ℕ) × (record_and_validate w tr max ≡ (
        Result.ok (path, size),
        Effect.validated path size ∷ Effect.recorded path ∷ Effect.record_to_file max ∷ tr,
      )))
unfolding record_and_validate
record_and_validate_cases w tr max = elim (Answer-cases (w.recorder tr' max)) [
  | inr (e, failed) ↦ inl (external e, rw (record_and_validate, failed))
  | inl (path, recorded) ↦ elim (Bool-cases (is_empty path)) [
    | inl nothing ↦ inl (empty_path, rw (record_and_validate, recorded, nothing))
    | inr something ↦ elim (validation w (Effect.recorded path ∷ tr') path) [
      | inl (e, bad) ↦ inr (inl (path, e, bad, rw (record_and_validate, recorded, something, bad)))
      | inr (size, good) ↦
          inr (inr (path, size, rw (record_and_validate, recorded, something, good)))
    ]
  ]
]
  where
    tr' : Trace
    tr' = Effect.record_to_file max ∷ tr

deliver_text_trace :
    (w : World) (out : Output) (tr : Trace) (raw : Text) (took size : ℕ)
    → ((deliver_text w out tr raw took size).1 ≡ tr)
      ⊎ ((t : Text) × ((deliver_text w out tr raw took size).1 ≡ Effect.deliver out.name t ∷ tr))
unfolding deliver_text
deliver_text_trace w out tr raw took size = ground arith

pub archive_and_cleanup-IsHolding :
    (w : World) (path : Text) {capturing streaming : Bool} (tr : Trace)
    → IsHolding (some path) capturing streaming tr
    → IsHolding none capturing streaming (archive_and_cleanup w tr path)
unfolding archive_and_cleanup run_archiver
archive_and_cleanup-IsHolding w path tr h = elim (Bool-cases (w.has_archiver)) [
  | inl e ↦ rw e (record {
    tidy = (h.file_is, (h.file_is, h.tidy));
    file_is = refl;
    capture_is = h.capture_is;
    stream_is = h.stream_is;
  })
  | inr e ↦ rw e (record {
    tidy = (h.file_is, h.tidy);
    file_is = refl;
    capture_is = h.capture_is;
    stream_is = h.stream_is;
  })
]

deliver_text-IsHolding :
    (w : World) (out : Output) (tr : Trace) (raw : Text) (took size : ℕ) {file : Option Text}
    {c s : Bool}
    → IsHolding file c s tr
    → IsHolding file c s (deliver_text w out tr raw took size).1
deliver_text-IsHolding w out tr raw took size h = elim (deliver_text_trace w out tr raw took size) [
  | inl e ↦ subst (IsHolding _ _ _) (sym e) h
  | inr (t, e) ↦ subst (IsHolding _ _ _) (sym e) (record {
    tidy = h.tidy;
    file_is = h.file_is;
    capture_is = h.capture_is;
    stream_is = h.stream_is;
  })
]

pub transcribe_and_deliver-IsHolding :
    (w : World) (tr : Trace) (path : Text) (size : ℕ) (lang : Text) {c s : Bool}
    → IsHolding (some path) c s tr
    → IsHolding (some path) c s (transcribe_and_deliver w tr path size lang).1
unfolding transcribe_and_deliver
transcribe_and_deliver-IsHolding w tr path size lang {c} {s} h =
    elim (Answer-cases ((w.transcriber tr).transcribe tr' path lang)) [
      | inl (raw, e) ↦
          rw (e, transcribe_and_deliver)
            (deliver_text-IsHolding w (w.output tr) tr' raw (w.since tr') size after)
      | inr (x, e) ↦ rw (e, transcribe_and_deliver) after
    ]
  where
    tr' : Trace
    tr' = Effect.transcribe (w.transcriber tr).name path lang ∷ tr

    after : IsHolding (some path) c s tr'
    after = record {
      tidy = (h.file_is, h.tidy);
      file_is = h.file_is;
      capture_is = h.capture_is;
      stream_is = h.stream_is;
    }

pub finalise_stream-IsHolding :
    (w : World) (tr : Trace) (stream : Trace → Text → StreamResult) (lang : Text) (size : ℕ)
    {file : Option Text} {c s : Bool}
    → IsHolding file c s tr
    → IsHolding file c false (finalise_stream w tr stream lang size).1
unfolding finalise_stream
finalise_stream-IsHolding w tr stream lang size {file} {c} {s} h =
    elim (Option-cases (w.ctx_err tr)) [
      | inl e ↦ rw (e, finalise_stream) (deliver_text-IsHolding w (w.output tr') tr' _ _ size after)
      | inr (x, e) ↦ rw (e, finalise_stream) after
    ]
  where
    tr' : Trace
    tr' = Effect.join_stream ∷ tr

    after : IsHolding file c false tr'
    after = record {
      tidy = h.tidy;
      file_is = h.file_is;
      capture_is = h.capture_is;
      stream_is = refl;
    }

pub validated-IsHolding :
    (max : ℤ) (path : Text) (size : ℕ) (tr : Trace) {c s : Bool}
    → IsHolding none c s tr
    → IsHolding
        (some path)
        c
        s
        (Effect.validated path size ∷ Effect.recorded path ∷ Effect.record_to_file max ∷ tr)
validated-IsHolding max path size tr h = record {
  tidy = (refl, (h.file_is, h.tidy));
  file_is = refl;
  capture_is = h.capture_is;
  stream_is = h.stream_is;
}

pub recorded-IsHolding :
    (max : ℤ) (path : Text) (tr : Trace) {c s : Bool}
    → IsHolding none c s tr
    → IsHolding (some path) c s (Effect.recorded path ∷ Effect.record_to_file max ∷ tr)
recorded-IsHolding max path tr h = record {
  tidy = (h.file_is, h.tidy);
  file_is = refl;
  capture_is = h.capture_is;
  stream_is = h.stream_is;
}

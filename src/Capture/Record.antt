-- ===== src/Capture/Record.antt =====
-- `SubprocessRecorder` of pkg/capture/subprocess_linux.go: the choice of a program, its arguments, and `RecordToFile`.
use a2text.Base.{
  ◌==◌, ◌&&◌, Bool, true, not, Option, none, some, List, [], ◌∷◌, ◌++◌, Text, String, codes,
  is_empty, same_text, if◌then◌else◌,
}
use a2text.Base.Int.{ℤ, pos, ltb_ℤ}
use a2text.Capture.Process.{Effect, Trace, Child, RunError, default_stop_grace, run}

pub data Backend : Type 0 where
  pipewire pulseaudio : Backend

-- `newSubprocessRecorder`: PipeWire's program is preferred; none is `ErrNoCaptureBackend`.
unfoldable pub new_subprocess_recorder : Bool → Bool → Option Backend
new_subprocess_recorder has_pw_record has_parecord =
    if has_pw_record
    then some Backend.pipewire
    else if has_parecord
    then some Backend.pulseaudio
    else none

pub record Options : Type 0 where
  pub duration : ℤ
  pub output_path : Text
  pub sample_rate : ℤ
  pub channels : ℤ

pub data RecordError : Type 0 where
  bad_sample_rate bad_channels : RecordError
  create_temp_failed close_temp_failed : String → RecordError
  run_failed : RunError → RecordError
  invalid_wav : String → RecordError

unfoldable pub validate_options : Options → Option RecordError
validate_options o =
    if not (ltb_ℤ (pos 0) o.sample_rate)
    then some RecordError.bad_sample_rate
    else if not (ltb_ℤ (pos 0) o.channels)
    then some RecordError.bad_channels
    else none

-- The text after the last dot of the last element, and the dot; nothing if there is none (`filepath.Ext`).
unfoldable pub ext_of : Text → Option Text
ext_of [] = none
ext_of (c ∷ cs) =
    let rest = ext_of cs in
    elim rest [ some e ↦ some e | none ↦ if c == 46 && no_slash cs then some (c ∷ cs) else none ]
  where
    no_slash : Text → Bool
    no_slash [] = true
    no_slash (d ∷ ds) = not (d == 47) && no_slash ds

or_nil : Option Text → Text
or_nil none = []
or_nil (some t) = t

-- `filepath.Ext`
unfoldable pub ext : Text → Text
unfolding ext_of or_nil
ext t = or_nil (ext_of t)

unfoldable pub ensure_wav_ext : Text → Text
ensure_wav_ext path = if same_text (ext path) (codes ".wav") then path else path ++ codes ".wav"

-- What `CreateTemp` answers, and behind a file that it has made, the error of its `Close`.
pub data Temp : Type 0 where
  created : Text → Option String → Temp
  not_created : String → Temp

pub data Resolved : Type 0 where
  at : Text → Resolved
  unresolved : RecordError → Resolved

unfoldable pub from_temp : Temp → Trace → Resolved × Trace
from_temp (Temp.not_created e) tr = (Resolved.unresolved (RecordError.create_temp_failed e), tr)
from_temp (Temp.created p (some e)) tr =
    (Resolved.unresolved (RecordError.close_temp_failed e), Effect.create_temp p ∷ tr)
from_temp (Temp.created p none) tr = (Resolved.at p, Effect.create_temp p ∷ tr)

-- A file that cannot be closed stays.
unfoldable pub resolve_output_path : Text → Temp → Trace → Resolved × Trace
unfolding from_temp
resolve_output_path requested temp tr =
    if not (is_empty requested)
    then (Resolved.at (ensure_wav_ext requested), tr)
    else from_temp temp tr

-- `strconv.Itoa` is a parameter.
module _ (itoa : ℤ → Text) where
  unfoldable pub build_args : Backend → Text → Options → List Text
  build_args Backend.pipewire path o =
      (codes "--rate=" ++ itoa o.sample_rate)
      ∷ (codes "--channels=" ++ itoa o.channels)
      ∷ codes "--format=s16"
      ∷ path
      ∷ []
  build_args Backend.pulseaudio path o =
      codes "--file-format=wav"
      ∷ (codes "--rate=" ++ itoa o.sample_rate)
      ∷ (codes "--channels=" ++ itoa o.channels)
      ∷ codes "--format=s16le"
      ∷ path
      ∷ []

pub data Recording : Type 0 where
  recorded : Text → Recording
  failed : RecordError → Recording

-- `child` is the program, by its arguments; `validate` is `ValidateAudioFormat`.
pub record Machine : Type 0 where
  pub backend : Backend
  pub child : List Text → Child
  pub temp : Temp
  pub itoa : ℤ → Text
  pub validate : Trace → Text → Option String

module _ (m : Machine) where
  checked : Trace → Text → Option String → Recording × Trace
  checked tr path none = (Recording.recorded path, tr)
  checked tr path (some e) = (Recording.failed (RecordError.invalid_wav e), Effect.remove path ∷ tr)

  unfoldable pub ran : Text → Option RunError × Trace → Recording × Trace
  unfolding checked
  ran path (some e, tr) = (Recording.failed (RecordError.run_failed e), Effect.remove path ∷ tr)
  ran path (none, tr) =
      let tr' = Effect.validate path ∷ tr in checked tr' path (m.validate tr' path)

  unfoldable pub resolved : Options → Resolved × Trace → Recording × Trace
  unfolding ran
  resolved o (Resolved.unresolved e, tr) = (Recording.failed e, tr)
  resolved o (Resolved.at path, tr) =
      ran path (run (m.child (build_args m.itoa m.backend path o)) o.duration default_stop_grace tr)

  unfoldable pub accepted : Options → Trace → Option RecordError → Recording × Trace
  unfolding resolved
  accepted o tr (some e) = (Recording.failed e, tr)
  accepted o tr none = resolved o (resolve_output_path o.output_path m.temp tr)

  -- `RecordToFile`
  unfoldable pub record_to_file : Options → Trace → Recording × Trace
  unfolding accepted
  record_to_file o tr = accepted o tr (validate_options o)

-- ===== src/Examples/Cycle.antt =====
-- Dictation cycles (internal/usecases/voice) in a concrete world.
use a2text.Base.{true, none, some, [], ◌∷◌, Text, trim_space, ◌≡◌, refl}
use a2text.Base.Int.{pos}
use a2text.Cycle.World.{Answer, Effect, Trace, Transcriber, Output, World}
use a2text.Cycle.Pipeline.{validate_cycle_args, cycle}
use a2text.Cycle.Clean.{Ends}
use a2text.Cycle.Delivery.{CycleKeeps, cycle-Keeps}
use a2text.Cycle.Clients.{exists, run_file}
use a2text.Cycle.Ends.{FileKeeps, open_conversion, run_file-FileKeeps}

abbrev hi : Text
hi = 104 ∷ 105 ∷ []

-- The backend returns " hi\n", or streams it.
abbrev backend : Transcriber
backend = record {
  name = 1;
  transcribe = λ tr path lang. Answer.ok (32 ∷ 104 ∷ 105 ∷ 10 ∷ []);
  stream = some (λ tr lang. record { text = 32 ∷ 104 ∷ 105 ∷ 10 ∷ []; error = none; took = 5 });
}

abbrev broken_backend : Transcriber
broken_backend = record {
  name = 2;
  transcribe = λ tr path lang. Answer.failed "no network";
  stream = none;
}

abbrev clipboard : Output
clipboard = record { name = 3; deliver = λ tr text. none; can_snapshot = true }

abbrev tmp : Text
tmp = 116 ∷ []

abbrev world_with : Transcriber → World
world_with t = record {
  transcriber = λ tr. t;
  output = λ tr. clipboard;
  has_archiver = true;
  recorder = λ tr max. Answer.ok tmp;
  stat = λ tr path. Answer.ok (true, 32044);
  start_streaming_pcm = λ tr. none;
  ctx_err = λ tr. none;
  since = λ tr. 7;
}

abbrev english : Text
english = 101 ∷ 110 ∷ []

cycle-Keeps_example :
    CycleKeeps
      (validate_cycle_args true (pos 60) (trim_space english))
      (cycle (world_with backend) [] true (pos 60) english)
      []
cycle-Keeps_example = cycle-Keeps (world_with backend) [] true (pos 60) english

run_file-FileKeeps_example :
    FileKeeps
      (run_file backend clipboard (λ p. exists true) (λ tr p. Answer.ok tmp) [] hi english)
      []
    × (open_conversion
          (run_file backend clipboard (λ p. exists true) (λ tr p. Answer.ok tmp) [] hi english).1
        ≡ none)
run_file-FileKeeps_example =
    run_file-FileKeeps backend clipboard (λ p. exists true) (λ tr p. Answer.ok tmp) [] hi english
      refl

abbrev recorded : Trace
recorded = Effect.validated tmp 32044 ∷ Effect.recorded tmp ∷ Effect.record_to_file (pos 60) ∷ []

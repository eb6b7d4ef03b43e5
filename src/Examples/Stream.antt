-- ===== src/Examples/Stream.antt =====
-- Streams of finals and WAV files through pkg/stt/deepgram_stream.go.
use a2text.Base.{
  true, false, some, List, [], ◌∷◌, Text, codes, trim_space, is_space, ◌≡◌, refl, arith,
}
use a2text.Wav.Format.{same_bytes, read_exact}
use a2text.Wav.Parse.{chunk_kind}
use a2text.Wav.Layout.{Chunk, IsIgnored, encode_wav, padded}
use a2text.Stt.DeepgramStream.{
  Event, Wake, new_handler, run, text, join, handle_final, final_of, add, handle_message, on_wake,
  on_event,
}
use a2text.Stt.Heard.{IsHeard, IsSpaced, text-run}
use a2text.Stt.SkipHeader.{Skipped, skip_chunks, skip_wav_header, skip_wav_header-encode_wav}

abbrev final : Text → Event
final t = Event.message (some (record { alternatives = t ∷ []; is_final = true }))

abbrev session : List Event
session =
    final (codes " hello ")
    ∷ Event.message (some (record { alternatives = codes "wor" ∷ []; is_final = false }))
    ∷ Event.drain_begins
    ∷ final (codes "world")
    ∷ Event.wake Wake.final_signal
    ∷ final (codes " ")
    ∷ Event.wake Wake.hard_cap
    ∷ final (codes "late")
    ∷ []

session_text : text (run session new_handler) ≡ codes "hello world"
unfolding text run new_handler on_event handle_message on_wake add final_of handle_final join
    trim_space is_space
session_text = refl

text-run_example :
    (heard : List Text) × IsHeard session heard × IsSpaced heard (text (run session new_handler))
text-run_example = text-run session

abbrev odd_chunk : Chunk
odd_chunk = record { a = 76; b = 73; c = 83; d = 84; body = 7 ∷ [] }

abbrev even_chunk : Chunk
even_chunk = record { a = 76; b = 73; c = 83; d = 84; body = 7 ∷ 8 ∷ [] }

even-IsIgnored : IsIgnored even_chunk
unfolding chunk_kind same_bytes
even-IsIgnored = record { unknown = refl; fits = omega arith }

skip_wav_header-encode_wav_example :
    skip_wav_header (encode_wav 50 (even_chunk ∷ []) [] [] (1 ∷ 2 ∷ []) (9 ∷ []))
    ≡ some (Skipped.at_pcm (1 ∷ 2 ∷ 9 ∷ []))
skip_wav_header-encode_wav_example =
    skip_wav_header-encode_wav 50 (even_chunk ∷ []) [] [] (1 ∷ 2 ∷ []) (9 ∷ []) (even-IsIgnored, tt)
      (refl, tt) tt tt (omega arith) refl

-- A chunk of odd length is padded, but the padding is not passed over: the next chunks are not found.
odd_misread :
    skip_wav_header (encode_wav 50 (odd_chunk ∷ []) [] [] (1 ∷ 2 ∷ []) [])
    ≡ some Skipped.short_chunk
unfolding skip_wav_header skip_chunks same_bytes read_exact padded
odd_misread = refl

-- ===== src/Examples/Wav.antt =====
-- A small WAV file through the decoder of pkg/audio/wav/wav.go.
use a2text.Base.{some, [], ◌∷◌, Bytes, ◌≡◌, refl, arith}
use a2text.Wav.Format.{Result, ok, Decoder, same_bytes}
use a2text.Wav.Parse.{chunk_kind, parse_header}
use a2text.Wav.Position.{IsPlaced, parse_header-IsPlaced}
use a2text.Wav.Total.{parse_header_total}
use a2text.Wav.Layout.{Chunk, IsIgnored, encode_wav}
use a2text.Wav.RoundTrip.{decoder_at, samples_start, parse_header-encode_wav}
use a2text.Wav.Samples.{IsAt, samples_at}
use a2text.Wav.Cuts.{reads_of, reads_of-samples_at}

-- "LIST"
abbrev list_chunk : Chunk
list_chunk = record { a = 76; b = 73; c = 83; d = 84; body = 7 ∷ 8 ∷ 9 ∷ [] }

list-IsIgnored : IsIgnored list_chunk
unfolding chunk_kind same_bytes
list-IsIgnored = record { unknown = refl; fits = omega arith }

-- The samples 1, -2 and 3.
abbrev three_samples : Bytes
three_samples = 1 ∷ 0 ∷ 254 ∷ 255 ∷ 3 ∷ 0 ∷ []

abbrev file : Bytes
file = encode_wav 58 (list_chunk ∷ []) [] [] three_samples (0 ∷ [])

parse_header-encode_wav_example :
    parse_header file
    ≡ some (ok (decoder_at (samples_start (list_chunk ∷ []) [] []) three_samples (0 ∷ [])))
parse_header-encode_wav_example =
    parse_header-encode_wav 58 (list_chunk ∷ []) [] [] three_samples (0 ∷ []) (list-IsIgnored, tt)
      tt (omega arith) (omega arith) refl

parse_header_total_example : (r : Result Decoder) × (parse_header file ≡ some r)
parse_header_total_example = parse_header_total file

abbrev decoder : Decoder
decoder = decoder_at (samples_start (list_chunk ∷ []) [] []) three_samples (0 ∷ [])

parse_header-IsPlaced_example : IsPlaced file decoder
parse_header-IsPlaced_example = parse_header-IsPlaced file parse_header-encode_wav_example

-- A seekable stream of three samples behind two bytes.
abbrev stream : Bytes
stream = 9 ∷ 9 ∷ three_samples

abbrev opened : Decoder
opened = record {
  rest = three_samples;
  whole = some stream;
  header = record { sample_rate = 16000; num_channels = 1; bit_depth = 16; num_samples = 3 };
  pos = 0;
  data_start = 2;
}

opened-IsAt : IsAt stream opened
opened-IsAt = record { here = refl; within = omega arith; full = omega arith }

reads_of-samples_at_example : reads_of (1 ∷ 2 ∷ []) opened ≡ samples_at stream 2 3
reads_of-samples_at_example =
    reads_of-samples_at (1 ∷ 2 ∷ []) stream opened opened-IsAt (omega arith)

abbrev at_last : Decoder
at_last = record {
  rest = 3 ∷ 0 ∷ [];
  whole = some stream;
  header = record { sample_rate = 16000; num_channels = 1; bit_depth = 16; num_samples = 3 };
  pos = 2;
  data_start = 2;
}

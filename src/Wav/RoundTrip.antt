-- ===== src/Wav/RoundTrip.antt =====
-- Parsing what was laid out as a WAV file (pkg/audio/wav/wav.go).
use a2text.Base.{
  ℕ, suc, ◌+◌, ◌-◌, ◌/◌, ◌%◌, ◌^◌, ◌≤◌, ◌<◌, true, false, none, some, List, [], ◌∷◌, ◌++◌, Bytes,
  u32_at, length, length-append, ◌≡◌, refl, ap, ◌∙◌, All, arith,
}
use a2text.Wav.Format.{
  ok, empty_header, Decoder, riff_magic, wave_magic, same_bytes, validate_wav_magic, fmt_id,
  data_id, chunk_bytes, validate_data_chunk, build_data_decoder, max_data_bytes,
}
use a2text.Wav.Parse.{chunk_kind, parse_wav_chunks, parse_header}
use a2text.Wav.Position.{started}
use a2text.Wav.Rounds.{round_data}
use a2text.Wav.Layout.{
  le32, Chunk, padded, encode_body, encode_chunks, IsIgnored, fmt_body, encode_data, encode_wav,
  chunks_size,
}
use a2text.Wav.Chunks.{
  read_exact-append, u32_at-le32, plain_header, read_header, chunks_skipped, fmt_taken,
}

-- The decoder that stands at the given samples.
abbrev pub decoder_at : ℕ → Bytes → Bytes → Decoder
decoder_at start samples trailing = record {
  rest = samples ++ trailing;
  whole = none;
  header = record {
    sample_rate = 16000;
    num_channels = 1;
    bit_depth = 16;
    num_samples = length samples / 2;
  };
  pos = 0;
  data_start = start;
}

build_data_decoder_fits :
    (samples trailing : Bytes) (n size : ℕ)
    → size ≤ max_data_bytes
    → size % 2 ≡ 0
    → build_data_decoder (samples ++ trailing) plain_header true size (n + 8)
      ≡ ok (record {
        rest = samples ++ trailing;
        whole = none;
        header = record {
          sample_rate = 16000;
          num_channels = 1;
          bit_depth = 16;
          num_samples = size / 2;
        };
        pos = 0;
        data_start = n + 8;
      })
unfolding build_data_decoder validate_data_chunk
build_data_decoder_fits samples trailing n size a b = ground arith

data_taken :
    (fuel n : ℕ) (samples trailing : Bytes)
    → length samples ≤ max_data_bytes
    → length samples % 2 ≡ 0
    → parse_wav_chunks (suc fuel) plain_header true n (encode_data samples trailing)
      ≡ some (ok (decoder_at (n + 8) samples trailing))
unfolding chunk_kind same_bytes
data_taken fuel n samples trailing small even =
    round_data fuel plain_header true n _ ch _ (read_header b'd' b'a' b't' b'a' (length samples) _)
      refl
    ∙ ap (λ s. some (build_data_decoder (samples ++ trailing) plain_header true s (n + 8))) size_is
    ∙ ap some (build_data_decoder_fits samples trailing n (length samples) small even)
  where
    ch : Bytes
    ch = data_id ++ le32 (length samples)

    size_is : u32_at 4 ch ≡ length samples
    size_is = u32_at-le32 b'd' b'a' b't' b'a' (length samples) (omega (arith, small))

pub length-encode_chunks :
    (ks : List Chunk) (after : Bytes) → length ks + length after ≤ length (encode_chunks ks after)
length-encode_chunks [] after = omega arith
length-encode_chunks (k ∷ ks) after =
    omega
      (arith, length-append (padded k.body) (encode_chunks ks after), length-encode_chunks ks after)

abbrev pub samples_start : List Chunk → Bytes → List Chunk → ℕ
samples_start before extension between =
    12
    + chunks_size before
    + 8
    + chunk_bytes (length (fmt_body extension))
    + chunks_size between
    + 8

magic_taken :
    (riff_size : ℕ) (after : Bytes)
    → validate_wav_magic ((riff_magic ++ le32 riff_size ++ wave_magic) ++ after) ≡ ok after
unfolding validate_wav_magic same_bytes
magic_taken riff_size after =
    rw (validate_wav_magic, read_exact-append (riff_magic ++ le32 riff_size ++ wave_magic) after)
      refl

-- A file that is laid out with a supported fmt chunk and a data chunk of at most 500 MB and even length, among any
-- chunks that the decoder does not know, all of sizes that fit in 32 bits, parses to a decoder at the first sample,
-- which counts the samples.
pub parse_header-encode_wav :
    (riff_size : ℕ) (before : List Chunk) (extension : Bytes) (between : List Chunk)
    (samples trailing : Bytes)
    → All IsIgnored before
    → All IsIgnored between
    → length (fmt_body extension) < 2 ^ 32
    → length samples ≤ max_data_bytes
    → length samples % 2 ≡ 0
    → parse_header (encode_wav riff_size before extension between samples trailing)
      ≡ some (ok (decoder_at (samples_start before extension between) samples trailing))
parse_header-encode_wav riff_size before extension between samples trailing hb hm hf hs he =
    started _ (magic_taken riff_size _)
    ∙ chunks_skipped before hb _ (suc (length between + suc m)) empty_header false 12 _ enough
    ∙ fmt_taken _ empty_header false _ extension _ hf
    ∙ chunks_skipped between hm _ (suc m) plain_header true _ _ refl
    ∙ data_taken m _ samples trailing hs he
  where
    payload : Bytes
    payload = encode_data samples trailing

    middle : Bytes
    middle = encode_body fmt_id (fmt_body extension) (encode_chunks between payload)

    m : ℕ
    m = length (encode_chunks before middle) - length before - length between - 1

    enough :
        suc (length (encode_chunks before middle)) ≡ length before + suc (length between + suc m)
    enough = omega (
      arith,
      length-encode_chunks before middle,
      length-append (padded (fmt_body extension)) (encode_chunks between payload),
      length-encode_chunks between payload,
    )

-- ===== src/Wav/Format.antt =====
-- The pieces of a WAV file (pkg/audio/wav/wav.go): the header, the decoder, reads of the stream, and the
-- checks on one chunk.
use a2text.Base.{
  ℕ, ◌+◌, ◌*◌, ◌/◌, ◌%◌, Bool, true, false, not, Option, none, some, [], ◌∷◌, Bytes, u16_at, u32_at,
  length, take, drop, leb, ltb, ◌==◌, if◌then◌else◌,
}

-- 500 MB
abbrev pub max_data_bytes : ℕ
max_data_bytes = 500 * 1024 * 1024

abbrev expected_sample_rate : ℕ
expected_sample_rate = 16000

abbrev expected_bit_depth : ℕ
expected_bit_depth = 16

abbrev bytes_per_sample : ℕ
bytes_per_sample = 2

abbrev min_fmt_chunk_size : ℕ
min_fmt_chunk_size = 16

-- The errors of parsing. The first three wrap `ErrNotWAV`.
pub data Err : Type 0 where
  short_magic missing_riff missing_wave : Err
  fmt_too_small fmt_truncated fmt_padding_truncated : Err
  unsupported_format unsupported_depth : Err
  data_before_fmt data_too_large odd_data_size : Err
  chunk_truncated missing_fmt missing_data : Err

pub data Result {ℓ} (A : Type ℓ) : Type ℓ where
  ok : A → Result A
  err : Err → Result A

-- `Header`, without the duration, which is a float computation on the others.
pub record Header : Type 0 where
  pub sample_rate : ℕ
  pub num_channels : ℕ
  pub bit_depth : ℕ
  pub num_samples : ℕ

abbrev pub empty_header : Header
empty_header = record { sample_rate = 0; num_channels = 0; bit_depth = 0; num_samples = 0 }

-- `rest` is what the reader has yet to give; `whole` is the whole stream if the reader can seek.
pub record Decoder : Type 0 where
  pub rest : Bytes
  pub whole : Option Bytes
  pub header : Header
  pub pos : ℕ
  pub data_start : ℕ

-- `io.ReadFull` into a buffer of the given size: the bytes, and what is left.
unfoldable pub read_exact : ℕ → Bytes → Option (Bytes × Bytes)
read_exact n bs = if leb n (length bs) then some (take n bs, drop n bs) else none

-- `io.CopyN(io.Discard, r, n)`
unfoldable pub skip_n : ℕ → Bytes → Option Bytes
skip_n n bs = if leb n (length bs) then some (drop n bs) else none

unfoldable pub same_bytes : Bytes → Bytes → Bool
same_bytes [] [] = true
same_bytes (x ∷ xs) (y ∷ ys) = if x == y then same_bytes xs ys else false
same_bytes _ _ = false

abbrev pub riff_magic : Bytes
riff_magic = b'R' ∷ b'I' ∷ b'F' ∷ b'F' ∷ []

abbrev pub wave_magic : Bytes
wave_magic = b'W' ∷ b'A' ∷ b'V' ∷ b'E' ∷ []

abbrev pub fmt_id : Bytes
fmt_id = b'f' ∷ b'm' ∷ b't' ∷ b' ' ∷ []

abbrev pub data_id : Bytes
data_id = b'd' ∷ b'a' ∷ b't' ∷ b'a' ∷ []

-- `validateWAVMagic`: the stream behind the twelve bytes.
unfoldable pub validate_wav_magic : Bytes → Result Bytes
unfolding read_exact same_bytes
validate_wav_magic bs = elim (read_exact 12 bs) [
  | none ↦ err short_magic
  | some (riff, rest) ↦
      if not (same_bytes (take 4 riff) riff_magic)
      then err missing_riff
      else if not (same_bytes (take 4 (drop 8 riff)) wave_magic)
      then err missing_wave
      else ok rest
]

-- The size of a chunk's body with its padding.
unfoldable pub chunk_bytes : ℕ → ℕ
chunk_bytes size = if not (size % 2 == 0) then size + 1 else size

-- The checks on the fields of a fmt chunk.
unfoldable pub check_fmt : Bytes → Result Header
check_fmt fmt =
    if not (u16_at 0 fmt == 1)
    then err unsupported_format
    else if not (u16_at 2 fmt == 1)
    then err unsupported_format
    else if not (u32_at 4 fmt == expected_sample_rate)
    then err unsupported_format
    else if not (u16_at 14 fmt == expected_bit_depth)
    then err unsupported_depth
    else ok (record {
      sample_rate = u32_at 4 fmt;
      num_channels = u16_at 2 fmt;
      bit_depth = u16_at 14 fmt;
      num_samples = 0;
    })

-- The header with the stream behind it.
abbrev with_rest : Bytes → Result Header → Result (Header × Bytes)
with_rest rest (ok h) = ok (h, rest)
with_rest rest (err e) = err e

-- `parseFmtChunk`
unfoldable pub parse_fmt_chunk : ℕ → Bytes → Result (Header × Bytes)
unfolding read_exact skip_n check_fmt
parse_fmt_chunk size bs =
    if ltb size min_fmt_chunk_size then err fmt_too_small else elim (read_exact size bs) [
      | none ↦ err fmt_truncated
      | some (fmt, rest) ↦
          if not (size % 2 == 0)
          then elim (skip_n 1 rest) [
            | none ↦ err fmt_padding_truncated
            | some rest' ↦ with_rest rest' (check_fmt fmt)
          ]
          else with_rest rest (check_fmt fmt)
    ]

-- `skipUnknownChunk`
unfoldable pub skip_unknown_chunk : ℕ → Bytes → Option Bytes
unfolding skip_n
skip_unknown_chunk size bs =
    let skip = if not (size % 2 == 0) then size + 1 else size in
    if ltb 0 skip then skip_n skip bs else some bs

-- `validateDataChunk`: the first check that fails.
unfoldable pub validate_data_chunk : Bool → ℕ → Option Err
validate_data_chunk has_fmt size =
    if not has_fmt
    then some data_before_fmt
    else if ltb max_data_bytes size
    then some data_too_large
    else if not (size % 2 == 0)
    then some odd_data_size
    else none

-- `buildDataDecoder`
unfoldable pub build_data_decoder : Bytes → Header → Bool → ℕ → ℕ → Result Decoder
unfolding validate_data_chunk
build_data_decoder bs hdr has_fmt size data_start = elim (validate_data_chunk has_fmt size) [
  | some e ↦ err e
  | none ↦ ok (record {
    rest = bs;
    whole = none;
    header = record hdr { num_samples = size / bytes_per_sample };
    pos = 0;
    data_start = data_start;
  })
]

-- ===== src/Wav/Parse.antt =====
-- `parseWAVChunks` and `parseHeader` of pkg/audio/wav/wav.go.
use a2text.Base.{
  ℕ, zero, suc, ◌+◌, Bool, true, false, not, Option, none, some, Bytes, u32_at, length, take,
  if◌then◌else◌,
}
use a2text.Wav.Format.{
  Result, ok, err, missing_fmt, missing_data, chunk_truncated, Header, empty_header, Decoder,
  read_exact, same_bytes, fmt_id, data_id, validate_wav_magic, chunk_bytes, parse_fmt_chunk,
  skip_unknown_chunk, build_data_decoder,
}

pub data ChunkKind : Type 0 where
  fmt_chunk data_chunk unknown_chunk : ChunkKind

unfoldable pub chunk_kind : Bytes → ChunkKind
unfolding same_bytes
chunk_kind id =
    if same_bytes id fmt_id
    then fmt_chunk
    else if same_bytes id data_id
    then data_chunk
    else unknown_chunk

-- The loop over the chunks; `none` means that the fuel ran out. Each round reads eight bytes.
unfoldable pub parse_wav_chunks : ℕ → Header → Bool → ℕ → Bytes → Option (Result Decoder)
parse_wav_chunks zero hdr has_fmt bytes_read bs = none
parse_wav_chunks (suc fuel) hdr has_fmt bytes_read bs = elim (read_exact 8 bs) [
  | none ↦ some (err (if not has_fmt then missing_fmt else missing_data))
  | some (chunk_hdr, rest) ↦
      let size = u32_at 4 chunk_hdr in
      let body_start = bytes_read + 8 in
      elim (chunk_kind (take 4 chunk_hdr)) [
        | fmt_chunk ↦ elim (parse_fmt_chunk size rest) [
          | err e ↦ some (err e)
          | ok (h, rest') ↦ parse_wav_chunks fuel h true (body_start + chunk_bytes size) rest'
        ]
        | data_chunk ↦ some (build_data_decoder rest hdr has_fmt size body_start)
        | unknown_chunk ↦ elim (skip_unknown_chunk size rest) [
          | none ↦ some (err chunk_truncated)
          | some rest' ↦ parse_wav_chunks fuel hdr has_fmt (body_start + chunk_bytes size) rest'
        ]
      ]
]

-- `parseHeader`, on a stream that is at its beginning.
unfoldable pub parse_header : Bytes → Option (Result Decoder)
parse_header bs = elim (validate_wav_magic bs) [
  | err e ↦ some (err e)
  | ok rest ↦ parse_wav_chunks (suc (length rest)) empty_header false 12 rest
]

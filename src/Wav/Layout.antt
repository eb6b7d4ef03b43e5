-- ===== src/Wav/Layout.antt =====
-- The layout of a WAV file, as RIFF describes it, independent of the decoder: a description to read back with
-- pkg/audio/wav/wav.go.
use a2text.Base.{
  ℕ, ◌+◌, ◌/◌, ◌%◌, ◌^◌, ◌<◌, List, [], ◌∷◌, ◌++◌, Bytes, length, ◌≡◌, if◌then◌else◌, ◌==◌, not,
}
use a2text.Wav.Format.{riff_magic, wave_magic, fmt_id, data_id, chunk_bytes}
use a2text.Wav.Parse.{unknown_chunk, chunk_kind}

abbrev pub le32 : ℕ → Bytes
le32 n = n % 256 ∷ n / 256 % 256 ∷ n / 65536 % 256 ∷ n / 16777216 % 256 ∷ []

-- A chunk of no interest: its four-byte id, and its body.
pub record Chunk : Type 0 where
  pub a : ℕ
  pub b : ℕ
  pub c : ℕ
  pub d : ℕ
  pub body : Bytes

abbrev pub chunk_id : Chunk → Bytes
chunk_id k = k.a ∷ k.b ∷ k.c ∷ k.d ∷ []

-- A body is padded to an even length.
unfoldable pub padded : Bytes → Bytes
padded body = body ++ (if not (length body % 2 == 0) then 0 ∷ [] else [])

abbrev pub encode_body : Bytes → Bytes → Bytes → Bytes
encode_body id body after = (id ++ le32 (length body)) ++ (padded body ++ after)

abbrev pub encode_chunks : List Chunk → Bytes → Bytes
encode_chunks [] after = after
encode_chunks (k ∷ ks) after = encode_body (chunk_id k) k.body (encode_chunks ks after)

pub record IsIgnored (k : Chunk) : Type 0 where
  pub unknown : chunk_kind (chunk_id k) ≡ unknown_chunk
  pub fits : length k.body < 2 ^ 32

-- 16 kHz, mono, 16 bits, with an extension of the fmt chunk.
abbrev pub fmt_body : Bytes → Bytes
fmt_body extension = 1 ∷ 0 ∷ 1 ∷ 0 ∷ 128 ∷ 62 ∷ 0 ∷ 0 ∷ 0 ∷ 125 ∷ 0 ∷ 0 ∷ 2 ∷ 0 ∷ 16 ∷ 0 ∷ extension

abbrev pub encode_data : Bytes → Bytes → Bytes
encode_data samples trailing = (data_id ++ le32 (length samples)) ++ (samples ++ trailing)

abbrev pub encode_wav : ℕ → List Chunk → Bytes → List Chunk → Bytes → Bytes → Bytes
encode_wav riff_size before extension between samples trailing =
    (riff_magic ++ le32 riff_size ++ wave_magic)
    ++ encode_chunks before (
        encode_body fmt_id (fmt_body extension)
          (encode_chunks between (encode_data samples trailing)))

-- How far the encoded chunks move the position.
abbrev pub chunks_size : List Chunk → ℕ
chunks_size [] = 0
chunks_size (k ∷ ks) = 8 + chunk_bytes (length k.body) + chunks_size ks

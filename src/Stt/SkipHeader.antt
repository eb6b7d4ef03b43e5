-- ===== src/Stt/SkipHeader.antt =====
-- `skipWAVHeader` of pkg/stt/deepgram_stream.go, and what it leaves of a file that the decoder of pkg/audio/wav/wav.go
-- reads.
use a2text.Base.{
  ℕ, zero, suc, ◌+◌, ◌-◌, ◌%◌, ◌^◌, ◌≤◌, ◌<◌, true, false, not, ◌||◌, Bool-cases, Option,
  Option-cases, none, some, List, [], ◌∷◌, ◌++◌, Bytes, u32_at, length, take, drop, length-append,
  length-drop, drop-append, append-nil, All, ◌≡◌, ◌≢◌, refl, ap, ◌∙◌, arith, inl, inr,
  if◌then◌else◌,
}
use a2text.Wav.Format.{read_exact, same_bytes, riff_magic, wave_magic, data_id, fmt_id}
use a2text.Wav.Parse.{chunk_kind, unknown_chunk}
use a2text.Wav.Layout.{
  le32, Chunk, chunk_id, padded, encode_body, encode_chunks, encode_data, encode_wav, IsIgnored,
  fmt_body,
}
use a2text.Wav.RoundTrip.{length-encode_chunks}
use a2text.Wav.Outcomes.{read_exact-some}
use a2text.Wav.Chunks.{read_exact-append, read_header, u32_at-le32}

-- The stream behind the header of the data chunk, or an error.
pub data Skipped : Type 0 where
  at_pcm : Bytes → Skipped
  short_riff not_wave short_chunk : Skipped

-- The loop; `none` means that the fuel ran out. A seek goes past the end of a file without an error.
unfoldable pub skip_chunks : ℕ → Bytes → Option Skipped
skip_chunks zero bs = none
skip_chunks (suc fuel) bs = elim (read_exact 8 bs) [
  | none ↦ some Skipped.short_chunk
  | some (chunk, rest) ↦ elim (same_bytes (take 4 chunk) data_id) [
    | true ↦ some (Skipped.at_pcm rest)
    | false ↦ skip_chunks fuel (drop (u32_at 4 chunk) rest)
  ]
]

unfoldable pub skip_wav_header : Bytes → Option Skipped
skip_wav_header bs = elim (read_exact 12 bs) [
  | none ↦ some Skipped.short_riff
  | some (header, rest) ↦
      if not (same_bytes (take 4 header) riff_magic)
        || not (same_bytes (take 4 (drop 8 header)) wave_magic)
      then some Skipped.not_wave
      else skip_chunks (suc (length rest)) rest
]

-- Each round reads eight bytes, so that the fuel is enough.
skip_chunks_total : (fuel : ℕ) (bs : Bytes) → length bs < fuel → skip_chunks fuel bs ≢ none
unfolding skip_chunks
skip_chunks_total zero bs h n = ground arith
skip_chunks_total (suc fuel) bs h n = elim (Option-cases (read_exact 8 bs)) [
  | inl e ↦ ground arith
  | inr ((chunk, rest), e) ↦
      let (long, _, rest_is) = read_exact-some 8 bs e in
      elim (Bool-cases (same_bytes (take 4 chunk) data_id)) [
        | inl d ↦ ground arith
        | inr d ↦
            skip_chunks_total fuel (drop (u32_at 4 chunk) rest)
              (shorter rest (u32_at 4 chunk) (ap length rest_is ∙ length-drop 8 bs) long)
              (ground arith)
      ]
]
  where
    shorter :
        (rest : Bytes) (size : ℕ)
        → length rest ≡ length bs - 8
        → 8 ≤ length bs
        → length (drop size rest) < fuel
    shorter rest size l long = omega (arith, length-drop size rest)

-- The header is skipped or refused, whatever the file holds: the loop ends.
pub skip_wav_header_total : (bs : Bytes) → skip_wav_header bs ≢ none
unfolding skip_wav_header
skip_wav_header_total bs n = elim (Option-cases (read_exact 12 bs)) [
  | inl e ↦ ground arith
  | inr ((header, rest), e) ↦
      elim (Bool-cases (
        not (same_bytes (take 4 header) riff_magic)
        || not (same_bytes (take 4 (drop 8 header)) wave_magic))) [
          | inl b ↦ ground arith
          | inr b ↦ skip_chunks_total (suc (length rest)) rest (omega arith) (ground arith)
        ]
]

-- A chunk of even length that is not the data chunk is passed over.
one_skipped :
    (fuel a b c d : ℕ) (body after : Bytes)
    → same_bytes (a ∷ b ∷ c ∷ d ∷ []) data_id ≡ false
    → length body < 2 ^ 32
    → length body % 2 ≡ 0
    → skip_chunks (suc fuel) (encode_body (a ∷ b ∷ c ∷ d ∷ []) body after) ≡ skip_chunks fuel after
unfolding skip_chunks padded
one_skipped fuel a b c d body after other small even =
    rw
      (
        skip_chunks,
        read_header a b c d (length body) (padded body ++ after),
        other,
        u32_at-le32 a b c d (length body) small,
        padded_even,
        drop-append body after,
      )
      refl
  where
    padded_even : padded body ++ after ≡ body ++ after
    padded_even = rw (padded, even) (ap (λ b. b ++ after) (append-nil body))

-- The body needs no padding.
abbrev pub IsEven : Chunk → Type 0
IsEven k = length k.body % 2 ≡ 0

not_data : (id : Bytes) → chunk_kind id ≡ unknown_chunk → same_bytes id data_id ≡ false
unfolding chunk_kind
not_data id h = ground arith

chunks_passed :
    (ks : List Chunk)
    → All IsIgnored ks
    → All IsEven ks
    → (fuel m : ℕ) (after : Bytes) → fuel ≡ length ks + m
    → skip_chunks fuel (encode_chunks ks after) ≡ skip_chunks m after
chunks_passed [] hi he fuel m after e = ap (λ f. skip_chunks f after) same_fuel
  where
    same_fuel : fuel ≡ m
    same_fuel = omega (arith, e)
chunks_passed (k ∷ ks) hi he zero m after e = absurd (omega (arith, e))
chunks_passed (k ∷ ks) hi he (suc fuel) m after e =
    one_skipped fuel k.a k.b k.c k.d k.body (encode_chunks ks after)
      (not_data (chunk_id k) (hi.0).unknown) (hi.0).fits he.0
    ∙ chunks_passed ks hi.1 he.1 fuel m after (omega (arith, e))

data_reached :
    (m : ℕ) (samples trailing : Bytes)
    → skip_chunks (suc m) (encode_data samples trailing)
      ≡ some (Skipped.at_pcm (samples ++ trailing))
unfolding skip_chunks same_bytes
data_reached m samples trailing =
    rw (skip_chunks, read_header b'd' b'a' b't' b'a' (length samples) (samples ++ trailing)) refl

-- Of a file that the decoder reads and that has no chunk of odd length before its samples, the samples are streamed,
-- and after them whatever follows the data chunk's body.
pub skip_wav_header-encode_wav :
    (riff_size : ℕ) (before : List Chunk) (extension : Bytes) (between : List Chunk)
    (samples trailing : Bytes)
    → All IsIgnored before
    → All IsEven before
    → All IsIgnored between
    → All IsEven between
    → length (fmt_body extension) < 2 ^ 32
    → length extension % 2 ≡ 0
    → skip_wav_header (encode_wav riff_size before extension between samples trailing)
      ≡ some (Skipped.at_pcm (samples ++ trailing))
unfolding skip_wav_header same_bytes
skip_wav_header-encode_wav riff_size before extension between samples trailing hb eb hm em small
      even =
    rw (skip_wav_header, read_exact-append (riff_magic ++ le32 riff_size ++ wave_magic) rest)
      (chunks_passed before hb eb _ (suc (length between + suc m)) _ enough
        ∙ one_skipped _ b'f' b'm' b't' b' ' (fmt_body extension) _ refl small fmt_even
        ∙ chunks_passed between hm em _ (suc m) _ refl
        ∙ data_reached m samples trailing)
  where
    payload : Bytes
    payload = encode_data samples trailing

    middle : Bytes
    middle = encode_body fmt_id (fmt_body extension) (encode_chunks between payload)

    rest : Bytes
    rest = encode_chunks before middle

    fmt_even : length (fmt_body extension) % 2 ≡ 0
    fmt_even = omega (arith, even)

    m : ℕ
    m = length rest - length before - length between - 1

    enough : suc (length rest) ≡ length before + suc (length between + suc m)
    enough = omega (
      arith,
      length-encode_chunks before middle,
      length-append (padded (fmt_body extension)) (encode_chunks between payload),
      length-encode_chunks between payload,
    )

-- ===== src/Wav/Chunks.antt =====
-- One chunk of a laid out WAV file through the loop of pkg/audio/wav/wav.go.
use a2text.Base.{
  ℕ, zero, suc, ◌+◌, ◌%◌, ◌^◌, ◌≤◌, ◌<◌, Bool, true, Bool-cases, some, List, [], ◌∷◌, ◌++◌, Bytes,
  u32_at, length, length-append, take-append, drop-append, append_assoc, append-nil, ◌≡◌, refl, ap,
  ◌∙◌, All, ◌==◌, arith, inl, inr,
}
use a2text.Wav.Format.{
  ok, Header, read_exact, skip_n, same_bytes, fmt_id, chunk_bytes, check_fmt, parse_fmt_chunk,
  skip_unknown_chunk,
}
use a2text.Wav.Parse.{chunk_kind, parse_wav_chunks}
use a2text.Wav.Rounds.{round_fmt, round_unknown}
use a2text.Wav.Layout.{
  le32, Chunk, chunk_id, padded, encode_body, encode_chunks, IsIgnored, fmt_body, chunks_size,
}

length-left : (xs ys : Bytes) → length xs ≤ length (xs ++ ys)
length-left xs ys = omega (arith, length-append xs ys)

pub read_exact-append : (xs ys : Bytes) → read_exact (length xs) (xs ++ ys) ≡ some (xs, ys)
unfolding read_exact
read_exact-append xs ys = ground (arith, length-left xs ys, take-append xs ys, drop-append xs ys)

skip_n-append : (xs ys : Bytes) → skip_n (length xs) (xs ++ ys) ≡ some ys
unfolding skip_n
skip_n-append xs ys = ground (arith, length-left xs ys, drop-append xs ys)

pub u32_at-le32 : (a b c d n : ℕ) → n < 2 ^ 32 → u32_at 4 ((a ∷ b ∷ c ∷ d ∷ []) ++ le32 n) ≡ n
u32_at-le32 a b c d n small = omega arith

length-padded : (body : Bytes) → length (padded body) ≡ chunk_bytes (length body)
unfolding padded chunk_bytes
length-padded body = elim (Bool-cases (length body % 2 == 0)) [
  | inl even ↦ rw even (omega (arith, length-append body []))
  | inr odd ↦ rw odd (length-append body (0 ∷ []))
]

skip_all :
    (size : ℕ) (xs after : Bytes)
    → length xs ≡ chunk_bytes size
    → skip_unknown_chunk size (xs ++ after) ≡ some after
unfolding skip_unknown_chunk chunk_bytes skip_n
skip_all size [] after e = ground arith
skip_all size (x ∷ xs) after e = ground (arith, length-left xs after, drop-append xs after)

-- A padded body is skipped whole.
skip_padded :
    (body after : Bytes) → skip_unknown_chunk (length body) (padded body ++ after) ≡ some after
skip_padded body after = skip_all (length body) (padded body) after (length-padded body)

abbrev pub plain_header : Header
plain_header = record { sample_rate = 16000; num_channels = 1; bit_depth = 16; num_samples = 0 }

check_fmt_body : (extension : Bytes) → check_fmt (fmt_body extension) ≡ ok plain_header
unfolding check_fmt
check_fmt_body extension = refl

fmt_padded :
    (extension after : Bytes)
    → (let body = fmt_body extension in
        parse_fmt_chunk (length body) (padded body ++ after) ≡ ok (plain_header, after))
unfolding parse_fmt_chunk padded skip_n
fmt_padded extension after = elim (Bool-cases (length (fmt_body extension) % 2 == 0)) [
  | inl even ↦ ground (
    arith,
    even,
    read_exact-append (fmt_body extension) after,
    append-nil (fmt_body extension),
    check_fmt_body extension,
  )
  | inr odd ↦ ground (
    arith,
    odd,
    read_exact-append (fmt_body extension) (0 ∷ after),
    append_assoc (fmt_body extension) (0 ∷ []) after,
    check_fmt_body extension,
  )
]

pub read_header :
    (a b c d n : ℕ) (after : Bytes)
    → (let ch = (a ∷ b ∷ c ∷ d ∷ []) ++ le32 n in read_exact 8 (ch ++ after) ≡ some (ch, after))
read_header a b c d n after = read_exact-append ((a ∷ b ∷ c ∷ d ∷ []) ++ le32 n) after

-- The loop passes over chunks that it does not know.
pub chunks_skipped :
    (ks : List Chunk)
    → All IsIgnored ks
    → (fuel m : ℕ) (hdr : Header) (has_fmt : Bool) (n : ℕ) (after : Bytes) → fuel ≡ length ks + m
    → parse_wav_chunks fuel hdr has_fmt n (encode_chunks ks after)
      ≡ parse_wav_chunks m hdr has_fmt (n + chunks_size ks) after
chunks_skipped [] h fuel m hdr has_fmt n after e =
    ap (λ f. parse_wav_chunks f hdr has_fmt n after) same_fuel
    ∙ ap (λ k. parse_wav_chunks m hdr has_fmt k after) same_place
  where
    same_fuel : fuel ≡ m
    same_fuel = omega (arith, e)

    same_place : n ≡ n + 0
    same_place = omega arith
chunks_skipped (k ∷ ks) h zero m hdr has_fmt n after e = absurd (omega (arith, e))
chunks_skipped (k ∷ ks) h (suc fuel) m hdr has_fmt n after e =
    round_unknown fuel hdr has_fmt n _ ch _ (read_header (k.a) (k.b) (k.c) (k.d) (length k.body) _)
      (h.0).unknown
      (ap (λ s. skip_unknown_chunk s (padded k.body ++ encode_chunks ks after)) size_is
        ∙ skip_padded k.body (encode_chunks ks after))
    ∙ ap (λ s. parse_wav_chunks fuel hdr has_fmt (n + 8 + chunk_bytes s) (encode_chunks ks after))
        size_is
    ∙ chunks_skipped ks (h.1) fuel m hdr has_fmt _ after (omega (arith, e))
    ∙ ap (λ p. parse_wav_chunks m hdr has_fmt p after) moved
  where
    ch : Bytes
    ch = chunk_id k ++ le32 (length k.body)

    size_is : u32_at 4 ch ≡ length k.body
    size_is = u32_at-le32 (k.a) (k.b) (k.c) (k.d) (length k.body) (h.0).fits

    moved :
        n + 8 + chunk_bytes (length k.body) + chunks_size ks
        ≡ n + (8 + chunk_bytes (length k.body) + chunks_size ks)
    moved = omega arith

-- The loop takes a supported fmt chunk's header.
pub fmt_taken :
    (fuel : ℕ) (hdr : Header) (has_fmt : Bool) (n : ℕ) (extension after : Bytes)
    → length (fmt_body extension) < 2 ^ 32
    → parse_wav_chunks (suc fuel) hdr has_fmt n (encode_body fmt_id (fmt_body extension) after)
      ≡ parse_wav_chunks fuel plain_header true
          (n + 8 + chunk_bytes (length (fmt_body extension)))
          after
unfolding chunk_kind same_bytes
fmt_taken fuel hdr has_fmt n extension after small =
    round_fmt fuel hdr has_fmt n _ ch _ (read_header b'f' b'm' b't' b' ' (length body) _) refl
      (ap (λ s. parse_fmt_chunk s (padded body ++ after)) size_is ∙ fmt_padded extension after)
    ∙ ap (λ s. parse_wav_chunks fuel plain_header true (n + 8 + chunk_bytes s) after) size_is
  where
    body : Bytes
    body = fmt_body extension

    ch : Bytes
    ch = fmt_id ++ le32 (length body)

    size_is : u32_at 4 ch ≡ length body
    size_is = u32_at-le32 b'f' b'm' b't' b' ' (length body) small

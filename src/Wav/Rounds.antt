-- ===== src/Wav/Rounds.antt =====
-- One round of the chunk loop of pkg/audio/wav/wav.go, for each of its outcomes.
use a2text.Base.{
  ℕ, suc, ◌+◌, Bool, true, none, some, Bytes, u32_at, take, not, if◌then◌else◌, ◌≡◌, refl, ◌⊎◌, inl,
  inr,
}
use a2text.Wav.Format.{
  Result, ok, err, Err, Header, read_exact, chunk_bytes, parse_fmt_chunk, skip_unknown_chunk,
  build_data_decoder, missing_fmt, missing_data, chunk_truncated,
}
use a2text.Wav.Parse.{ChunkKind, fmt_chunk, data_chunk, unknown_chunk, chunk_kind, parse_wav_chunks}

pub Result-cases {ℓ} :
    {A : Type ℓ} (r : Result A) → ((a : A) × (r ≡ ok a)) ⊎ ((e : Err) × (r ≡ err e))
Result-cases (ok a) = inl (a, refl)
Result-cases (err e) = inr (e, refl)

pub ChunkKind-cases : (k : ChunkKind) → (k ≡ fmt_chunk) ⊎ ((k ≡ data_chunk) ⊎ (k ≡ unknown_chunk))
ChunkKind-cases fmt_chunk = inl refl
ChunkKind-cases data_chunk = inr (inl refl)
ChunkKind-cases unknown_chunk = inr (inr refl)

module _ (fuel : ℕ) (hdr : Header) (has_fmt : Bool) (n : ℕ) (bs ch rest : Bytes)
    (got : read_exact 8 bs ≡ some (ch, rest)) where
  pub round_fmt :
      chunk_kind (take 4 ch) ≡ fmt_chunk
      → {h : Header} {r : Bytes} → parse_fmt_chunk (u32_at 4 ch) rest ≡ ok (h, r)
      → parse_wav_chunks (suc fuel) hdr has_fmt n bs
        ≡ parse_wav_chunks fuel h true (n + 8 + chunk_bytes (u32_at 4 ch)) r
  unfolding parse_wav_chunks
  round_fmt kind p = rw (parse_wav_chunks, got, kind, p)

  pub round_fmt_err :
      chunk_kind (take 4 ch) ≡ fmt_chunk
      → {x : Err} → parse_fmt_chunk (u32_at 4 ch) rest ≡ err x
      → parse_wav_chunks (suc fuel) hdr has_fmt n bs ≡ some (err x)
  unfolding parse_wav_chunks
  round_fmt_err kind p = rw (parse_wav_chunks, got, kind, p)

  pub round_data :
      chunk_kind (take 4 ch) ≡ data_chunk
      → parse_wav_chunks (suc fuel) hdr has_fmt n bs
        ≡ some (build_data_decoder rest hdr has_fmt (u32_at 4 ch) (n + 8))
  unfolding parse_wav_chunks
  round_data kind = rw (parse_wav_chunks, got, kind)

  pub round_unknown :
      chunk_kind (take 4 ch) ≡ unknown_chunk
      → {r : Bytes} → skip_unknown_chunk (u32_at 4 ch) rest ≡ some r
      → parse_wav_chunks (suc fuel) hdr has_fmt n bs
        ≡ parse_wav_chunks fuel hdr has_fmt (n + 8 + chunk_bytes (u32_at 4 ch)) r
  unfolding parse_wav_chunks
  round_unknown kind p = rw (parse_wav_chunks, got, kind, p)

  pub round_cut :
      chunk_kind (take 4 ch) ≡ unknown_chunk
      → skip_unknown_chunk (u32_at 4 ch) rest ≡ none
      → parse_wav_chunks (suc fuel) hdr has_fmt n bs ≡ some (err chunk_truncated)
  unfolding parse_wav_chunks
  round_cut kind p = rw (parse_wav_chunks, got, kind, p)

pub round_end :
    (fuel : ℕ) (hdr : Header) (has_fmt : Bool) (n : ℕ) (bs : Bytes)
    → read_exact 8 bs ≡ none
    → parse_wav_chunks (suc fuel) hdr has_fmt n bs
      ≡ some (err (if not has_fmt then missing_fmt else missing_data))
unfolding parse_wav_chunks
round_end fuel hdr has_fmt n bs ended = rw (parse_wav_chunks, ended)

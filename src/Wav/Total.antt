-- ===== src/Wav/Total.antt =====
-- Parsing always ends (pkg/audio/wav/wav.go).
use a2text.Base.{
  ℕ, zero, suc, ◌+◌, ◌≤◌, ◌<◌, Bool, true, false, Option-cases, some, Bytes, u32_at, length, take,
  drop, length-drop, ◌≡◌, ap, ◌∙◌, inl, inr, arith,
}
use a2text.Wav.Format.{
  Result, err, Header, empty_header, Decoder, read_exact, chunk_bytes, parse_fmt_chunk,
  validate_wav_magic, skip_unknown_chunk,
}
use a2text.Wav.Rounds.{
  Result-cases, ChunkKind-cases, round_fmt, round_fmt_err, round_data, round_unknown, round_cut,
  round_end,
}
use a2text.Wav.Parse.{chunk_kind, parse_wav_chunks, parse_header}
use a2text.Wav.Outcomes.{read_exact-some, parse_fmt_chunk_ok, skip_unknown_chunk-some}
use a2text.Wav.Position.{started, refused}

shorter :
    (bs : Bytes) (k : ℕ) {fuel : ℕ} {r rest : Bytes}
    → r ≡ drop k rest
    → rest ≡ drop 8 bs
    → 8 ≤ length bs
    → length bs < suc fuel
    → length r < fuel
shorter bs k {fuel} {r} {rest} a b l enough =
    omega (arith, ap length a, ap length b, length-drop k rest, length-drop 8 bs)

loop_total :
    (fuel : ℕ) (hdr : Header) (has_fmt : Bool) (n : ℕ) (bs : Bytes)
    → length bs < fuel
    → (r : Result Decoder) × (parse_wav_chunks fuel hdr has_fmt n bs ≡ some r)
loop_total zero hdr has_fmt n bs enough = absurd (omega arith)
loop_total (suc fuel) hdr has_fmt n bs enough = elim (Option-cases (read_exact 8 bs)) [
  | inl ended ↦ (_, round_end fuel hdr has_fmt n bs ended)
  | inr ((ch, rest), got) ↦
      let (long, _, rest_is) = read_exact-some 8 bs got in
      let size = u32_at 4 ch in
      elim (ChunkKind-cases (chunk_kind (take 4 ch))) [
        | inl is_fmt ↦ elim (Result-cases (parse_fmt_chunk size rest)) [
          | inl ((h, r), p) ↦
              let (r_is, _, _) = parse_fmt_chunk_ok size rest p in
              let next =
                loop_total fuel h true (n + 8 + chunk_bytes size) r
                  (shorter bs (chunk_bytes size) r_is rest_is long enough) in
              (next.0, round_fmt fuel hdr has_fmt n bs ch rest got is_fmt p ∙ next.1)
          | inr (x, p) ↦ (_, round_fmt_err fuel hdr has_fmt n bs ch rest got is_fmt p)
        ]
        | inr (inl is_data) ↦ (_, round_data fuel hdr has_fmt n bs ch rest got is_data)
        | inr (inr is_unknown) ↦ elim (Option-cases (skip_unknown_chunk size rest)) [
          | inl p ↦ (_, round_cut fuel hdr has_fmt n bs ch rest got is_unknown p)
          | inr (r, p) ↦
              let (r_is, _) = skip_unknown_chunk-some size rest p in
              let next =
                loop_total fuel hdr has_fmt (n + 8 + chunk_bytes size) r
                  (shorter bs (chunk_bytes size) r_is rest_is long enough) in
              (next.0, round_unknown fuel hdr has_fmt n bs ch rest got is_unknown p ∙ next.1)
        ]
      ]
]

-- Parsing any stream ends with a decoder or an error.
pub parse_header_total : (bs : Bytes) → (r : Result Decoder) × (parse_header bs ≡ some r)
parse_header_total bs = elim (Result-cases (validate_wav_magic bs)) [
  | inl (rest, p) ↦
      let end = loop_total (suc (length rest)) empty_header false 12 rest (omega arith) in
      (end.0, started bs p ∙ end.1)
  | inr (x, p) ↦ (err x, refused bs p)
]

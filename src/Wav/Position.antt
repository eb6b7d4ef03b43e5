-- ===== src/Wav/Position.antt =====
-- Where the decoder stands after parsing (pkg/audio/wav/wav.go).
use a2text.Base.{
  ℕ, zero, suc, ◌+◌, ◌*◌, ◌≤◌, Bool, true, false, Option-cases, some, Bytes, u32_at, length, take,
  drop, drop-drop, length-drop, ◌≡◌, refl, sym, ap, ◌∙◌, subst, inl, inr, arith,
}
use a2text.Wav.Format.{
  ok, err, Err, Header, empty_header, Decoder, read_exact, chunk_bytes, parse_fmt_chunk,
  validate_wav_magic, skip_unknown_chunk, build_data_decoder, max_data_bytes,
}
use a2text.Wav.Rounds.{
  Result-cases, ChunkKind-cases, round_fmt, round_fmt_err, round_data, round_unknown, round_cut,
  round_end,
}
use a2text.Wav.Parse.{chunk_kind, parse_wav_chunks, parse_header}
use a2text.Wav.Outcomes.{
  read_exact-some, IsSupported, parse_fmt_chunk_ok, skip_unknown_chunk-some, build_data_decoder_ok,
  validate_wav_magic_ok,
}

-- The decoder stands behind its own offset into the stream, at the first sample of a supported file.
pub record IsPlaced (stream : Bytes) (d : Decoder) : Type 0 where
  pub here : d.rest ≡ drop d.data_start stream
  pub inside : d.data_start ≤ length stream
  pub at_first : d.pos ≡ 0
  pub few : d.header.num_samples * 2 ≤ max_data_bytes
  pub supported : IsSupported d.header

-- What the loop knows of the header that it has.
abbrev Knows : Bool → Header → Type 0
Knows false hdr = Unit
Knows true hdr = IsSupported hdr

placed-drop :
    (stream bs : Bytes) (n size : ℕ) {ch rest : Bytes}
    → bs ≡ drop n stream
    → n ≤ length stream
    → read_exact 8 bs ≡ some (ch, rest)
    → chunk_bytes size ≤ length rest
    → (drop (chunk_bytes size) rest ≡ drop (n + 8 + chunk_bytes size) stream)
      × (n + 8 + chunk_bytes size ≤ length stream)
placed-drop stream bs n size {ch} {rest} here inside got c =
    let (long, _, e) = read_exact-some 8 bs got in
    (
      ap (drop (chunk_bytes size)) (e ∙ ap (drop 8) here ∙ drop-drop n 8 stream)
          ∙ drop-drop (n + 8) (chunk_bytes size) stream,
      omega (arith, ap length e, ap length here, length-drop 8 bs, length-drop n stream),
    )

data-IsPlaced :
    (stream bs : Bytes) (n size : ℕ) (hdr : Header) (has_fmt : Bool) {ch rest : Bytes} {d : Decoder}
    → bs ≡ drop n stream
    → n ≤ length stream
    → Knows has_fmt hdr
    → read_exact 8 bs ≡ some (ch, rest)
    → build_data_decoder rest hdr has_fmt size (n + 8) ≡ ok d
    → IsPlaced stream d
data-IsPlaced stream bs n size hdr has_fmt {ch} {rest} here inside k got e =
    let (long, _, rest_is) = read_exact-some 8 bs got in
    let (has, small, _, d_is) = build_data_decoder_ok rest hdr has_fmt size (n + 8) e in
    let good = subst (λ b. Knows b hdr) has k in
    subst (IsPlaced stream) (sym d_is) (record {
      here = rest_is ∙ ap (drop 8) here ∙ drop-drop n 8 stream;
      inside = omega (arith, ap length here, length-drop n stream);
      at_first = refl;
      few = omega arith;
      supported = record { rate = good.rate; mono = good.mono; depth = good.depth };
    })

loop-IsPlaced :
    (stream : Bytes) (fuel : ℕ) (hdr : Header) (has_fmt : Bool) (n : ℕ) (bs : Bytes) {d : Decoder}
    → bs ≡ drop n stream
    → n ≤ length stream
    → Knows has_fmt hdr
    → parse_wav_chunks fuel hdr has_fmt n bs ≡ some (ok d)
    → IsPlaced stream d
unfolding parse_wav_chunks
loop-IsPlaced stream zero hdr has_fmt n bs here inside k e = cc
loop-IsPlaced stream (suc fuel) hdr has_fmt n bs {d} here inside k e =
    elim (Option-cases (read_exact 8 bs)) [
      | inl ended ↦ absurd (cc (round_end fuel hdr has_fmt n bs ended))
      | inr ((ch, rest), got) ↦ elim (ChunkKind-cases (chunk_kind (take 4 ch))) [
        | inl is_fmt ↦ elim (Result-cases (parse_fmt_chunk (u32_at 4 ch) rest)) [
          | inl ((h, r), p) ↦
              let (r_is, long, good) = parse_fmt_chunk_ok (u32_at 4 ch) rest p in
              let (at, room) = placed-drop stream bs n (u32_at 4 ch) here inside got long in
              loop-IsPlaced stream fuel h true (n + 8 + chunk_bytes (u32_at 4 ch)) r (r_is ∙ at)
                room good (sym (round_fmt fuel hdr has_fmt n bs ch rest got is_fmt p) ∙ e)
          | inr (x, p) ↦ absurd (cc (round_fmt_err fuel hdr has_fmt n bs ch rest got is_fmt p))
        ]
        | inr (inl is_data) ↦
            data-IsPlaced stream bs n (u32_at 4 ch) hdr has_fmt here inside k got
              (cc (round_data fuel hdr has_fmt n bs ch rest got is_data))
        | inr (inr is_unknown) ↦ elim (Option-cases (skip_unknown_chunk (u32_at 4 ch) rest)) [
          | inl p ↦ absurd (cc (round_cut fuel hdr has_fmt n bs ch rest got is_unknown p))
          | inr (r, p) ↦
              let (r_is, long) = skip_unknown_chunk-some (u32_at 4 ch) rest p in
              let (at, room) = placed-drop stream bs n (u32_at 4 ch) here inside got long in
              loop-IsPlaced stream fuel hdr has_fmt (n + 8 + chunk_bytes (u32_at 4 ch)) r
                (r_is ∙ at) room k
                (sym (round_unknown fuel hdr has_fmt n bs ch rest got is_unknown p) ∙ e)
        ]
      ]
    ]

pub started :
    (bs : Bytes) {rest : Bytes}
    → validate_wav_magic bs ≡ ok rest
    → parse_header bs ≡ parse_wav_chunks (suc (length rest)) empty_header false 12 rest
unfolding parse_header
started bs p = rw (parse_header, p)

pub refused :
    (bs : Bytes) {x : Err} → validate_wav_magic bs ≡ err x → parse_header bs ≡ some (err x)
unfolding parse_header
refused bs p = rw (parse_header, p)

-- A stream that parses leaves the decoder behind its own offset into the stream, inside it, at sample 0, with at
-- most 500 MB of samples, and with the header of a 16 kHz 16-bit mono file.
pub parse_header-IsPlaced :
    (bs : Bytes) {d : Decoder} → parse_header bs ≡ some (ok d) → IsPlaced bs d
parse_header-IsPlaced bs {d} e = elim (Result-cases (validate_wav_magic bs)) [
  | inl (rest, p) ↦
      let (at, room) = validate_wav_magic_ok bs p in
      loop-IsPlaced bs (suc (length rest)) empty_header false 12 rest at room tt (cc (started bs p))
  | inr (x, p) ↦ absurd (cc (refused bs p))
]

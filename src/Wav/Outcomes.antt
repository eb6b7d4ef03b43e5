-- ===== src/Wav/Outcomes.antt =====
-- What the steps of parsing leave when they succeed (pkg/audio/wav/wav.go).
use a2text.Base.{
  ℕ, ◌/◌, ◌%◌, ◌≤◌, Bool, true, none, some, Bytes, length, take, drop, drop-drop, length-drop, ◌≡◌,
  arith,
}
use a2text.Wav.Format.{
  ok, Header, Decoder, read_exact, chunk_bytes, parse_fmt_chunk, validate_wav_magic,
  skip_unknown_chunk, build_data_decoder, max_data_bytes,
}

pub read_exact-some :
    (n : ℕ) (bs : Bytes) {a r : Bytes}
    → read_exact n bs ≡ some (a, r)
    → (n ≤ length bs) × (a ≡ take n bs) × (r ≡ drop n bs)
unfolding read_exact
read_exact-some n bs h = ground arith

-- A header that a fmt chunk has passed.
pub record IsSupported (h : Header) : Type 0 where
  pub rate : h.sample_rate ≡ 16000
  pub mono : h.num_channels ≡ 1
  pub depth : h.bit_depth ≡ 16

pub parse_fmt_chunk_ok :
    (size : ℕ) (bs : Bytes) {h : Header} {r : Bytes}
    → parse_fmt_chunk size bs ≡ ok (h, r)
    → (r ≡ drop (chunk_bytes size) bs) × (chunk_bytes size ≤ length bs) × IsSupported h
unfolding parse_fmt_chunk chunk_bytes
parse_fmt_chunk_ok size bs e = ground (arith, drop-drop size 1 bs, length-drop size bs)

pub skip_unknown_chunk-some :
    (size : ℕ) (bs : Bytes) {r : Bytes}
    → skip_unknown_chunk size bs ≡ some r
    → (r ≡ drop (chunk_bytes size) bs) × (chunk_bytes size ≤ length bs)
unfolding skip_unknown_chunk chunk_bytes
skip_unknown_chunk-some size bs e = ground arith

pub build_data_decoder_ok :
    (bs : Bytes) (hdr : Header) (has_fmt : Bool) (size start : ℕ) {d : Decoder}
    → build_data_decoder bs hdr has_fmt size start ≡ ok d
    → (has_fmt ≡ true)
      × (size ≤ max_data_bytes)
      × (size % 2 ≡ 0)
      × (d ≡ record {
        rest = bs;
        whole = none;
        header = record hdr { num_samples = size / 2 };
        pos = 0;
        data_start = start;
      })
unfolding build_data_decoder
build_data_decoder_ok bs hdr has_fmt size start e = ground arith

pub validate_wav_magic_ok :
    (bs : Bytes) {r : Bytes} → validate_wav_magic bs ≡ ok r → (r ≡ drop 12 bs) × (12 ≤ length bs)
unfolding validate_wav_magic
validate_wav_magic_ok bs e = ground arith

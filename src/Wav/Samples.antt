-- ===== src/Wav/Samples.antt =====
-- Reads of the decoder of pkg/audio/wav/wav.go give the samples of the stream.
use a2text.Base.{
  ℕ, zero, suc, ◌+◌, ◌-◌, ◌*◌, ◌≤◌, min, Bool-cases, Option-cases, true, some, List, [], Bytes,
  length, take, drop, length-drop, drop-drop, leb, ltb, ◌==◌, if◌then◌else◌, ◌≡◌, refl, ap, subst,
  ◌∙◌, inl, inr, arith,
}
use a2text.Base.Int.{ℤ, pos, negsuc}
use a2text.Wav.Format.{Decoder, read_exact}
use a2text.Wav.Read.{
  decode_samples, Status, fine, eof, read, read_all, Whence, target_of, seek, SeekResult, at,
  refused,
}

-- The decoder stands at its position in a stream that has all the samples that the header counts.
pub record IsAt (stream : Bytes) (d : Decoder) : Type 0 where
  pub here : d.rest ≡ drop (d.data_start + d.pos * 2) stream
  pub within : d.pos ≤ d.header.num_samples
  pub full : d.data_start + d.header.num_samples * 2 ≤ length stream

-- The samples of a stream, from a place in bytes.
abbrev pub samples_at : Bytes → ℕ → ℕ → List ℤ
samples_at stream start n = decode_samples (take (n * 2) (drop start stream))

-- What a read of a number of samples into a buffer of a given length gives.
abbrev pub Reads : Bytes → Decoder → ℕ → ℕ → (List ℤ × Status) × Decoder → Type 0
Reads stream d len n (result, d') =
    (result ≡ (samples_at stream (d.data_start + d.pos * 2) n, if ltb n len then eof else fine))
    × (d'.pos ≡ d.pos + n)
    × IsAt stream d'
    × (d'.data_start ≡ d.data_start)
    × (d'.header ≡ d.header)

nothing-Reads :
    (stream : Bytes) (d : Decoder) (len n : ℕ) (s : Status)
    → IsAt stream d
    → 0 ≡ n
    → s ≡ (if ltb 0 len then eof else fine)
    → Reads stream d len n (([], s), d)
unfolding decode_samples
nothing-Reads stream d len n s h e st =
    subst (λ n. Reads stream d len n (([], s), d)) e
      (ap (λ t. ([], t)) st, omega arith, h, refl, refl)

read_exact_enough :
    (n : ℕ) (bs : Bytes) → n ≤ length bs → read_exact n bs ≡ some (take n bs, drop n bs)
unfolding read_exact
read_exact_enough n bs h = ground arith

moved-IsAt :
    (stream : Bytes) (d : Decoder) (n : ℕ)
    → IsAt stream d
    → d.pos + n ≤ d.header.num_samples
    → IsAt stream (record d { rest = drop (n * 2) d.rest; pos = d.pos + n })
moved-IsAt stream d n h room = record {
  here =
      ap (drop (n * 2)) h.here
      ∙ drop-drop (d.data_start + d.pos * 2) (n * 2) stream
      ∙ ap (λ k. drop k stream) place;
  within = room;
  full = h.full;
}
  where
    place : d.data_start + d.pos * 2 + n * 2 ≡ d.data_start + (d.pos + n) * 2
    place = omega arith

-- A read returns the samples that follow, as many as fit and are left, with `io.EOF` if they are fewer than the
-- buffer holds, and moves the position behind them; it never fails while the stream has what its header promises.
pub read-Reads :
    (stream : Bytes) (d : Decoder) (len : ℕ)
    → IsAt stream d
    → Reads stream d len (min len (d.header.num_samples - d.pos)) (read len d)
unfolding read
read-Reads stream d zero h = nothing-Reads stream d 0 _ fine h (omega arith) refl
read-Reads stream d (suc k) h = elim (Bool-cases (leb (d.header.num_samples) (d.pos))) [
  | inl over ↦ rw over (nothing-Reads stream d (suc k) _ eof h (ended over) (ground arith))
  | inr more ↦
      rw (more, read_exact_enough (n * 2) (d.rest) enough)
        (
          ap (λ bs. (decode_samples (take (n * 2) bs), if ltb n (suc k) then eof else fine)) h.here,
          refl,
          moved-IsAt stream d n h (omega (arith, h.within)),
          refl,
          refl,
        )
]
  where
    n : ℕ
    n = min (suc k) (d.header.num_samples - d.pos)

    ended : leb (d.header.num_samples) (d.pos) ≡ true → 0 ≡ n
    ended over = ground arith

    enough : n * 2 ≤ length (d.rest)
    enough =
        omega
          (arith, ap length h.here, length-drop (d.data_start + d.pos * 2) stream, h.within, h.full)

-- What a seek gives: the sample that it goes to, and the decoder there, or an error and the decoder as it was.
abbrev pub Seeks : Bytes → Decoder → SeekResult × Decoder → Type 0
Seeks stream d (at n, d') = (d'.pos ≡ n) × IsAt stream d'
Seeks stream d (refused e, d') = d' ≡ d

-- A seek of a seekable stream, whatever its offset and whence, puts the decoder at the sample that it returns, within
-- the data and with the stream from there left to read, or it is refused and leaves the decoder as it was.
pub seek-Seeks :
    (stream : Bytes) (d : Decoder) (offset : ℤ) (whence : Whence)
    → IsAt stream d
    → d.whole ≡ some stream
    → Seeks stream d (seek offset whence d)
unfolding seek
seek-Seeks stream d offset whence h w =
    elim (Option-cases (target_of d.pos d.header.num_samples offset whence)) [
      | inl t ↦ ground arith
      | inr (negsuc n, t) ↦ ground arith
      | inr (pos n, t) ↦ elim (Bool-cases (ltb d.header.num_samples n)) [
        | inl out ↦ ground arith
        | inr inside ↦
            rw (seek, w, t, inside)
              (refl, record { here = refl; within = ground arith; full = h.full })
      ]
    ]

-- `ReadAll` returns all the samples that are left.
read_all-samples_at :
    (stream : Bytes) (d : Decoder)
    → IsAt stream d
    → (read_all d).0
      ≡ some (samples_at stream (d.data_start + d.pos * 2) (d.header.num_samples - d.pos))
unfolding read_all decode_samples
read_all-samples_at stream d h = elim (Bool-cases (d.header.num_samples - d.pos == 0)) [
  | inl done ↦
      rw (read_all, done)
        (ap (λ n. some (samples_at stream (d.data_start + d.pos * 2) n)) (nothing done))
  | inr more ↦ rw (read_all, more, result, result) refl
]
  where
    left : ℕ
    left = d.header.num_samples - d.pos

    nothing : (left == 0) ≡ true → 0 ≡ left
    nothing e = ground arith

    fits : (n : ℕ) → (if ltb n n then eof else fine) ≡ fine
    fits n = ground arith

    same : min left left ≡ left
    same = omega arith

    result : (read left d).0 ≡ (samples_at stream (d.data_start + d.pos * 2) left, fine)
    result =
        (read-Reads stream d left h).0
        ∙ ap
            (λ n.
              (samples_at stream (d.data_start + d.pos * 2) n, if ltb n left then eof else fine))
            same
        ∙ ap (λ s. (samples_at stream (d.data_start + d.pos * 2) left, s)) (fits left)

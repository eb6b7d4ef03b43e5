-- ===== src/Wav/Cuts.antt =====
-- Reads one after the other, and reads behind a seek, of the decoder of pkg/audio/wav/wav.go.
use a2text.Base.{
  ℕ, zero, suc, ◌+◌, ◌-◌, ◌*◌, ◌%◌, ◌≤◌, min, some, List, [], ◌∷◌, ◌++◌, Bytes, length, take, drop,
  length-drop, drop-drop, ◌≡◌, refl, sym, ap, ◌∙◌, arith,
}
use a2text.Base.Int.{ℤ}
use a2text.Wav.Format.{Decoder}
use a2text.Wav.Read.{sample_of, decode_samples, read, Whence, at, seek}
use a2text.Wav.Samples.{IsAt, samples_at, read-Reads}

decode_samples-take :
    (m k : ℕ) (bs : Bytes)
    → m % 2 ≡ 0
    → m ≤ length bs
    → decode_samples (take (m + k) bs)
      ≡ decode_samples (take m bs) ++ decode_samples (take k (drop m bs))
unfolding decode_samples
decode_samples-take zero k bs e h = ap (λ n. decode_samples (take n bs)) (omega arith)
decode_samples-take (suc zero) k bs e h = absurd (omega (arith, e))
decode_samples-take (suc (suc m)) k [] e h = absurd (omega (arith, h))
decode_samples-take (suc (suc m)) k (x ∷ []) e h = absurd (omega (arith, h))
decode_samples-take (suc (suc m)) k (x ∷ y ∷ bs) e h =
    ap (λ n. decode_samples (take n (x ∷ y ∷ bs))) two_more
    ∙ ap (λ t. sample_of x y ∷ t) (decode_samples-take m k bs (omega (arith, e)) (omega (arith, h)))
  where
    two_more : suc (suc m) + k ≡ suc (suc (m + k))
    two_more = omega arith

samples_at-append :
    (stream : Bytes) (start a b : ℕ)
    → start + a * 2 ≤ length stream
    → samples_at stream start (a + b)
      ≡ samples_at stream start a ++ samples_at stream (start + a * 2) b
samples_at-append stream start a b h =
    ap (λ n. decode_samples (take n (drop start stream))) distributed
    ∙ decode_samples-take (a * 2) (b * 2) (drop start stream) (omega arith)
        (omega (arith, h, length-drop start stream))
    ∙ ap (λ bs. samples_at stream start a ++ decode_samples (take (b * 2) bs))
        (drop-drop start (a * 2) stream)
  where
    distributed : (a + b) * 2 ≡ a * 2 + b * 2
    distributed = omega arith

-- The samples that reads into buffers of the given lengths return, one after the other.
unfoldable pub reads_of : List ℕ → Decoder → List ℤ
unfolding read
reads_of [] d = []
reads_of (len ∷ lens) d = let (result, d') = read len d in result.0 ++ reads_of lens d'

abbrev pub sum : List ℕ → ℕ
sum [] = 0
sum (n ∷ ns) = n + sum ns

-- However the samples that are left are cut into reads, the reads return them in order: as many as the buffers hold.
pub reads_of-samples_at :
    (lens : List ℕ) (stream : Bytes) (d : Decoder)
    → IsAt stream d
    → sum lens ≤ d.header.num_samples - d.pos
    → reads_of lens d ≡ samples_at stream (d.data_start + d.pos * 2) (sum lens)
unfolding reads_of decode_samples
reads_of-samples_at [] stream d h room = refl
reads_of-samples_at (len ∷ lens) stream d h room =
    let (result, moved, h', same_start, same_header) = read-Reads stream d len h in
    let d' = (read len d).1 in
    let here = d.data_start + d.pos * 2 in
    ap (λ r. r.0 ++ reads_of lens d') result
    ∙ ap (λ t. samples_at stream here (min len (d.header.num_samples - d.pos)) ++ t)
        (reads_of-samples_at lens stream d' h'
          (omega (arith, moved, room, ap (λ k. k.num_samples) same_header)))
    ∙ ap
        (λ n. samples_at stream here n ++ samples_at stream (d'.data_start + d'.pos * 2) (sum lens))
        all
    ∙ ap (λ n. samples_at stream here len ++ samples_at stream n (sum lens))
        (omega (arith, moved, same_start, room))
    ∙ sym (samples_at-append stream here len (sum lens) (omega (arith, room, h.within, h.full)))
  where
    all : min len (d.header.num_samples - d.pos) ≡ len
    all = omega (arith, room)

seek_at :
    (stream : Bytes) (d d' : Decoder) (offset : ℤ) (whence : Whence) (n : ℕ)
    → d.whole ≡ some stream
    → seek offset whence d ≡ (at n, d')
    → (n ≤ d.header.num_samples)
      × (d' ≡ record d { rest = drop (d.data_start + n * 2) stream; pos = n })
unfolding seek
seek_at stream d d' offset whence n w e = ground arith

-- A read behind a seek returns the samples from the one that the seek returned.
pub seek-read :
    (stream : Bytes) (d d' : Decoder) (offset : ℤ) (whence : Whence) (n len : ℕ)
    → IsAt stream d
    → d.whole ≡ some stream
    → seek offset whence d ≡ (at n, d')
    → (read len d').0.0
      ≡ samples_at stream (d.data_start + n * 2) (min len (d.header.num_samples - n))
seek-read stream d d' offset whence n len h w e =
    let (room, same) = seek_at stream d d' offset whence n w e in
    let d'' = record d { rest = drop (d.data_start + n * 2) stream; pos = n } in
    ap (λ k. (read len k).0.0) same
    ∙ ap (λ r. r.0)
        (read-Reads stream d'' len (record { here = refl; within = room; full = h.full })).0

-- ===== src/Wav/Read.antt =====
-- `Read`, `Seek` and `ReadAll` of the decoder of pkg/audio/wav/wav.go. A sample is the integer that the source divides
-- by 32768.0; a duration in samples and a position are below 2 ^ 32, since a data chunk has at most 500 MB.
use a2text.Base.{
  ℕ, zero, suc, ◌+◌, ◌-◌, ◌*◌, min, Bool, Option, none, some, List, [], ◌∷◌, Bytes, drop, leb, ltb,
  ◌==◌, if◌then◌else◌,
}
use a2text.Base.Int.{ℤ, pos, negsuc, sub_ℕ, ◌+ℤ◌, wrap64}
use a2text.Wav.Format.{Result, ok, err, Decoder, read_exact}
use a2text.Wav.Parse.{parse_header}

abbrev attached : Bool → Bytes → Result Decoder → Result Decoder
attached seekable bs (ok d) = ok (record d { whole = if seekable then some bs else none })
attached seekable bs (err e) = err e

-- `NewDecoder`, on a reader that is a seeker or not.
new_decoder : Bool → Bytes → Option (Result Decoder)
unfolding parse_header
new_decoder seekable bs = elim (parse_header bs) [
  | none ↦ none
  | some r ↦ some (attached seekable bs r)
]

-- A little-endian two's complement of 16 bits.
unfoldable pub sample_of : ℕ → ℕ → ℤ
sample_of lo hi =
    let sample = lo + 256 * hi in if leb 32768 sample then sub_ℕ sample 65536 else pos sample

unfoldable pub decode_samples : Bytes → List ℤ
unfolding sample_of
decode_samples (lo ∷ hi ∷ rest) = sample_of lo hi ∷ decode_samples rest
decode_samples _ = []

pub data Status : Type 0 where
  fine eof failed : Status

-- `Read` into a buffer of the given length: the samples, the error, and the decoder after it. A read that fails has
-- used up the stream.
unfoldable pub read : ℕ → Decoder → (List ℤ × Status) × Decoder
unfolding read_exact decode_samples
read zero d = (([], fine), d)
read (suc k) d =
    let n = min (suc k) (d.header.num_samples - d.pos) in
    if leb (d.header.num_samples) (d.pos)
    then (([], eof), d)
    else elim (read_exact (n * 2) d.rest) [
      | none ↦ (([], failed), record d { rest = [] })
      | some (raw, rest') ↦ (
        (decode_samples raw, if ltb n (suc k) then eof else fine),
        record d { rest = rest'; pos = d.pos + n },
      )
    ]

-- `ReadAll`: `none` is an error.
unfoldable pub read_all : Decoder → Option (List ℤ) × Decoder
unfolding read
read_all d =
    let ((samples, status), d') = read (d.header.num_samples - d.pos) d in
    if d.header.num_samples - d.pos == 0
    then (some [], d)
    else elim status [ failed ↦ (none, d') | _ ↦ (some samples, d') ]

pub data Whence : Type 0 where
  seek_start seek_current seek_end other : Whence

pub data SeekError : Type 0 where
  not_seekable invalid_whence out_of_range : SeekError

pub data SeekResult : Type 0 where
  at : ℕ → SeekResult
  refused : SeekError → SeekResult

-- The sample that a `Seek` goes to, if its whence is valid.
unfoldable pub target_of : ℕ → ℕ → ℤ → Whence → Option ℤ
target_of here count offset seek_start = some offset
target_of here count offset seek_current = some (wrap64 (pos here +ℤ offset))
target_of here count offset seek_end = some (wrap64 (pos count +ℤ offset))
target_of here count offset other = none

-- `Seek`. A seek of the underlying stream to an offset that is not negative succeeds.
unfoldable pub seek : ℤ → Whence → Decoder → SeekResult × Decoder
unfolding target_of
seek offset whence d = elim (d.whole) [
  | none ↦ (refused not_seekable, d)
  | some whole ↦ elim (target_of d.pos d.header.num_samples offset whence) [
    | none ↦ (refused invalid_whence, d)
    | some (negsuc n) ↦ (refused out_of_range, d)
    | some (pos n) ↦
        if ltb (d.header.num_samples) n
        then (refused out_of_range, d)
        else (at n, record d { rest = drop (d.data_start + n * 2) whole; pos = n })
  ]
]

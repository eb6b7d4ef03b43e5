-- ===== src/Keeping/Download.antt =====
-- `Downloader.Download` of pkg/whispercpp/download.go. What the network and the disk answer is given for each source;
-- the effects are logged, the latest first.
use a2text.Base.{
  ℕ, ltb, Bool, false, not, Option, none, some, List, [], ◌∷◌, ◌++◌, Text, String, codes, Bytes,
  is_empty, if◌then◌else◌,
}
use a2text.Base.Int.{ℤ, pos, ltb_ℤ}

-- How a read of the body ends: it goes on, it is the end, or it fails.
pub data Status : Type 0 where
  more eof : Status
  broken : String → Status

-- One read: its bytes, what the write of them answers, and its end.
pub record Read : Type 0 where
  pub bytes : Bytes
  pub write_error : Option String
  pub status : Status

pub data CopyError : Type 0 where
  write_failed read_failed : String → CopyError
  unfinished : CopyError

-- Whether the copy stops behind a read, and with which error.
ended : Status → Option (Option CopyError)
ended Status.more = none
ended Status.eof = some none
ended (Status.broken e) = some (some (CopyError.read_failed e))

unless_failed : Option String → Option (Option CopyError) → Option (Option CopyError)
unless_failed none later = later
unless_failed (some e) later = some (some (CopyError.write_failed e))

unfoldable pub stopped : Read → Option (Option CopyError)
unfolding ended unless_failed
stopped r =
    if not (is_empty r.bytes) then unless_failed r.write_error (ended r.status) else ended r.status

unfoldable pub fails_to_write : Read → Bool
fails_to_write r = elim r.write_error [ some e ↦ not (is_empty r.bytes) | none ↦ false ]

-- `copyWithProgress` on the reads of a body; a list that ends without `eof` is a body that is not read to its end.
unfoldable pub copy_with_progress : List Read → Bytes → Option CopyError × Bytes
unfolding stopped fails_to_write
copy_with_progress [] done = (some CopyError.unfinished, done)
copy_with_progress (r ∷ rs) done =
    let later = copy_with_progress rs (done ++ r.bytes) in
    elim (stopped r) [
      | none ↦ later
      | some e ↦ (e, if fails_to_write r then done else done ++ r.bytes)
    ]

-- `Progress` at the end.
unfoldable pub last_progress : ℤ → ℕ → ℕ × ℤ
last_progress total done = (done, if ltb_ℤ total (pos 0) then pos done else total)

-- A source: the answer of the GET, the body, and the errors of the calls on files.
pub record Source : Type 0 where
  pub open_error : Option String
  pub create_error : Option String
  pub body : List Read
  pub close_error : Option String
  pub rename_error : Option String
  pub body_close_error : Option String

pub data Effect : Type 0 where
  wrote : Text → Bytes → Effect
  renamed : Text → Text → Bytes → Effect
  removed : Text → Effect

abbrev pub Trace : Type 0
Trace = List Effect

pub data FetchError : Type 0 where
  http not_created not_closed not_renamed body_not_closed : String → FetchError
  not_copied : CopyError → FetchError

abbrev pub first_of : Option FetchError → Option String → (String → FetchError) → Option FetchError
first_of (some e) later f = some e
first_of none none f = none
first_of none (some e) f = some (f e)

copied : Option CopyError → Option FetchError
copied none = none
copied (some e) = some (FetchError.not_copied e)

-- `writePartial`: the error, and the bytes in the partial file.
unfoldable pub write_partial : Source → Option FetchError × Bytes
unfolding copied
write_partial s = elim s.create_error [
  | some e ↦ (some (FetchError.not_created e), [])
  | none ↦
      let r = copy_with_progress s.body [] in
      (first_of (copied r.0) s.close_error FetchError.not_closed, r.1)
]

-- `finalPath + partialSuffix`
abbrev pub partial_of : Text → Text
partial_of final = final ++ codes ".partial"

unfoldable pub renaming : Source → Text → Bytes → Trace → Option String → Option FetchError × Trace
renaming s final bytes tr none = (
  first_of none s.body_close_error FetchError.body_not_closed,
  Effect.renamed (partial_of final) final bytes ∷ tr,
)
renaming s final bytes tr (some e) =
    (some (FetchError.not_renamed e), Effect.removed (partial_of final) ∷ tr)

-- A file that could not be created was not written.
left_partial : Text → FetchError → Bytes → Trace → Trace
left_partial final (FetchError.not_created e) bytes tr = tr
left_partial final _ bytes tr = Effect.wrote (partial_of final) bytes ∷ tr

unfoldable pub after_write :
    Source → Text → Trace → Option FetchError × Bytes → Option FetchError × Trace
unfolding renaming left_partial
after_write s final tr (some e, bytes) =
    (some e, Effect.removed (partial_of final) ∷ left_partial final e bytes tr)
after_write s final tr (none, bytes) =
    renaming s final bytes (Effect.wrote (partial_of final) bytes ∷ tr) s.rename_error

opened : Source → Text → Trace → Option String → Option FetchError × Trace
unfolding after_write
opened s final tr (some e) = (some (FetchError.http e), tr)
opened s final tr none = after_write s final tr (write_partial s)

unfoldable pub fetch_one : Source → Text → Trace → Option FetchError × Trace
unfolding opened
fetch_one s final tr = opened s final tr s.open_error

pub data DownloadError : Type 0 where
  empty_model empty_dir no_sources : DownloadError
  no_dir cancelled : String → DownloadError
  all_failed : FetchError → DownloadError

pub data Outcome : Type 0 where
  already saved : Outcome
  failed : DownloadError → Outcome

last_error : Option FetchError → DownloadError
last_error none = DownloadError.no_sources
last_error (some e) = DownloadError.all_failed e

-- A file that is not empty.
unfoldable pub is_present : Option ℕ → Bool
is_present none = false
is_present (some n) = ltb 0 n

-- Behind a fetch: the later sources count if it has failed.
unfoldable pub or_later : Option FetchError × Trace → Outcome × Trace → Outcome × Trace
or_later (none, tr) later = (Outcome.saved, tr)
or_later (some e, tr) later = later

-- The configured sources, unless there are none.
unfoldable pub or_default : List Source → List Source → List Source
or_default default_sources [] = default_sources
or_default default_sources (s ∷ ss) = s ∷ ss

-- `tryAllSources`; the context's error is asked before each source.
-- `path_of` is `filepath.Join`.
module _ (ctx_err : Trace → Option String) (path_of : Text → Text → Text) where
  unfoldable pub try_all_sources : Text → List Source → Option FetchError → Trace → Outcome × Trace
  unfolding last_error or_later
  try_all_sources final [] prev tr = (Outcome.failed (last_error prev), tr)
  try_all_sources final (s ∷ ss) prev tr =
      let r = fetch_one s final tr in
      let later = try_all_sources final ss r.0 r.1 in
      elim (ctx_err tr) [
        | some e ↦ (Outcome.failed (DownloadError.cancelled e), tr)
        | none ↦ or_later r later
      ]

  -- `Download`; `DefaultSources` stand in for an empty list. `size` is that of a file of the model's name, if there is one.
  unfoldable pub download :
      Text → Text → Option String → Option ℕ → List Source → List Source → Trace → Outcome × Trace
  unfolding or_default
  download model_file dest_dir mkdir_error size default_sources sources tr =
      if is_empty model_file
      then (Outcome.failed DownloadError.empty_model, tr)
      else if is_empty dest_dir
      then (Outcome.failed DownloadError.empty_dir, tr)
      else elim mkdir_error [
        | some e ↦ (Outcome.failed (DownloadError.no_dir e), tr)
        | none ↦
            if is_present size
            then (Outcome.already, tr)
            else try_all_sources (path_of dest_dir model_file) (or_default default_sources sources)
                none tr
      ]

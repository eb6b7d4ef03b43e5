-- ===== src/Keeping/Archive.antt =====
-- `Archiver.Archive` of pkg/audioarchive/archiver.go, and what internal/infra/factory/kept_audio.go asks of it. The
-- file system's and the encoder's answers are functions of the trace of effects, the latest first.
use a2text.Base.{
  ℕ, Bool, not, Option, none, some, List, ◌∷◌, ◌++◌, map, Text, String, codes, is_empty, same_text,
  trim_space, if◌then◌else◌,
}

pub data Effect : Type 0 where
  make_dir : Text → Effect
  copy encode rename : Text → Text → Effect
  remove : Text → Effect

abbrev pub Trace : Type 0
Trace = List Effect

pub data Format : Type 0 where
  wav ogg : Format

pub data ArchiveError : Type 0 where
  empty_source empty_dir no_transcoder : ArchiveError
  mkdir_failed write_failed rename_failed : String → ArchiveError

pub data Archived : Type 0 where
  saved : Text → Archived
  failed : ArchiveError → Archived

-- `stamp` is the time in UTC to the second, as the name has it; `path_of` is `filepath.Join`; the others are the errors
-- of the calls that the trace ends with.
pub record Disk : Type 0 where
  pub stamp : Text
  pub path_of : Text → Text → Text
  pub has_transcoder : Bool
  pub make_dir : Trace → Option String
  pub copy : Trace → Option String
  pub encode : Trace → Option String
  pub rename : Trace → Option String

module _ (to_lower : ℕ → ℕ) where
  unfoldable pub normalise : Text → Format
  normalise format =
      if same_text (map to_lower format) (codes "ogg") then Format.ogg else Format.wav

ext_of : Format → Text
ext_of Format.wav = codes "wav"
ext_of Format.ogg = codes "ogg"

module _ (to_lower : ℕ → ℕ) (d : Disk) where
  -- `chooseExt` and `makeName`
  unfoldable pub make_name : Text → Text
  unfolding ext_of
  make_name format = codes "a2text-" ++ d.stamp ++ codes "." ++ ext_of (normalise to_lower format)

  write_error : Option String → Option ArchiveError
  write_error none = none
  write_error (some e) = some (ArchiveError.write_failed e)

  write_as : Format → Text → Text → Trace → Option ArchiveError × Trace
  unfolding write_error
  write_as Format.wav src dst tr =
      let tr' = Effect.copy src dst ∷ tr in (write_error (d.copy tr'), tr')
  write_as Format.ogg src dst tr =
      let tr' = Effect.encode src dst ∷ tr in
      if not d.has_transcoder
      then (some ArchiveError.no_transcoder, tr)
      else (write_error (d.encode tr'), tr')

  unfoldable pub write_archive : Text → Text → Text → Trace → Option ArchiveError × Trace
  unfolding write_as
  write_archive src dst format tr = write_as (normalise to_lower format) src dst tr

  unfoldable pub renamed : Text → Text → Trace → Option String → Archived × Trace
  renamed partial final tr none = (Archived.saved final, tr)
  renamed partial final tr (some e) =
      (Archived.failed (ArchiveError.rename_failed e), Effect.remove partial ∷ tr)

  unfoldable pub written : Text → Text → Option ArchiveError × Trace → Archived × Trace
  unfolding renamed
  written partial final (some e, tr) = (Archived.failed e, Effect.remove partial ∷ tr)
  written partial final (none, tr) =
      let tr' = Effect.rename partial final ∷ tr in renamed partial final tr' (d.rename tr')

  unfoldable pub in_dir : Text → Text → Text → Trace → Option String → Archived × Trace
  unfolding written
  in_dir src dest format tr (some e) = (Archived.failed (ArchiveError.mkdir_failed e), tr)
  in_dir src dest format tr none =
      let final = d.path_of dest (make_name format) in
      let partial = final ++ codes ".partial" in
      written partial final (write_archive src partial format tr)

  -- `Archive`
  unfoldable pub archive : Text → Text → Text → Trace → Archived × Trace
  unfolding in_dir
  archive src dest format tr =
      let tr' = Effect.make_dir dest ∷ tr in
      if is_empty src
      then (Archived.failed ArchiveError.empty_source, tr)
      else if is_empty dest
      then (Archived.failed ArchiveError.empty_dir, tr)
      else in_dir src dest format tr' (d.make_dir tr')

-- `resolveDestDir`: the configured directory, the data directory, the temporary one, the system's.
unfoldable pub resolve_dest_dir : Text → Option Text → Text → Text → Text
resolve_dest_dir keep_audio_dir data_dir temp_dir system =
    if not (is_empty (trim_space keep_audio_dir))
    then trim_space keep_audio_dir
    else or_dir data_dir
        (if not (is_empty (trim_space temp_dir)) then trim_space temp_dir else system)
  where
    or_dir : Option Text → Text → Text
    or_dir none other = other
    or_dir (some dir) other = if is_empty dir then other else dir

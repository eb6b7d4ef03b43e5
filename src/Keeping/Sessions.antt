-- ===== src/Keeping/Sessions.antt =====
-- `CleanupSession`, `WithSessionDir` and `CleanOrphanDirs` of internal/infra/daemon/tempclean.go. A directory is the
-- list of its entries; times are in nanoseconds.
use a2text.Base.{
  ℕ, ◌+◌, ◌*◌, ◌^◌, ◌%◌, ltb, ◌==◌, Bool, true, false, not, Option, none, some, List, [], ◌∷◌, Text,
  String, codes, is_empty, if◌then◌else◌,
}

abbrev pub orphan_max_age : ℕ
orphan_max_age = 24 * 3600 * 10 ^ 9

-- What `os.Lstat` tells, or that it fails, and whether `os.RemoveAll` succeeds.
pub record Entry : Type 0 where
  pub name : Text
  pub lstat_fails : Bool
  pub is_dir : Bool
  pub perm : ℕ
  pub mod_time : ℕ
  pub removable : Bool

-- `strings.HasPrefix`
unfoldable pub has_prefix : Text → Text → Bool
has_prefix t [] = true
has_prefix [] (p ∷ ps) = false
has_prefix (c ∷ cs) (p ∷ ps) = let rest = has_prefix cs ps in if c == p then rest else false

abbrev pub session_prefix : Text
session_prefix = codes "a2text-"

-- `cleanOrphanEntry`: whether the entry is left. `cutoff + orphan_max_age` is the time now.
unfoldable pub is_left : ℕ → Entry → Bool
is_left now e =
    if not (has_prefix e.name session_prefix)
    then true
    else if e.lstat_fails
    then true
    else if not e.is_dir
    then true
    else if not (e.perm % 64 == 0)
    then true
    else if ltb now (e.mod_time + orphan_max_age)
    then true
    else not e.removable

-- `CleanOrphanDirs`: what is left of the entries; none is a directory that cannot be read.
unfoldable pub sweep : ℕ → List Entry → List Entry
unfolding is_left
sweep now [] = []
sweep now (e ∷ es) = let rest = sweep now es in if is_left now e then e ∷ rest else rest

unfoldable pub clean_orphan_dirs : ℕ → Option (List Entry) → Option (List Entry)
unfolding sweep
clean_orphan_dirs now none = none
clean_orphan_dirs now (some es) = some (sweep now es)

pub data Effect : Type 0 where
  made ran : Text → Effect
  printed removed : Text → Effect
  rolled_back : Text → Effect

abbrev pub Trace : Type 0
Trace = List Effect

-- `CleanupSession`; `base` is `filepath.Base`.
unfoldable pub cleanup_session : (Text → Text) → Text → Bool → Trace → Trace
cleanup_session base dir keep_audio tr =
    if is_empty dir
    then tr
    else if keep_audio
    then Effect.printed dir ∷ tr
    else if not (has_prefix (base dir) session_prefix)
    then tr
    else Effect.removed dir ∷ tr

-- The answers of `MkdirTemp` and `Chmod`.
pub data Made : Type 0 where
  refused : String → Made
  created : Text → Option String → Made

-- A session's directory, or why there is none.
pub data SessionDir : Type 0 where
  ready : Text → SessionDir
  no_dir : String → SessionDir

-- `MakeSessionDir`: a directory whose mode cannot be set is taken back.
unfoldable pub make_session_dir : Made → Trace → SessionDir × Trace
make_session_dir (refused e) tr = (SessionDir.no_dir e, tr)
make_session_dir (created dir none) tr = (SessionDir.ready dir, Effect.made dir ∷ tr)
make_session_dir (created dir (some e)) tr =
    (SessionDir.no_dir e, Effect.rolled_back dir ∷ Effect.made dir ∷ tr)

in_session :
    (Text → Text) → Bool → (Text → Option String) → SessionDir × Trace → Option String × Trace
in_session base keep_audio body (SessionDir.no_dir e, tr) = (some e, tr)
in_session base keep_audio body (SessionDir.ready dir, tr) =
    (body dir, cleanup_session base dir keep_audio (Effect.ran dir ∷ tr))

-- `WithSessionDir`, with the result of the function that it runs.
unfoldable pub with_session_dir :
    (Text → Text) → Bool → (Text → Option String) → Made → Trace → Option String × Trace
unfolding make_session_dir in_session
with_session_dir base keep_audio body m tr = in_session base keep_audio body (make_session_dir m tr)

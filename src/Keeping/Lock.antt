-- ===== src/Keeping/Lock.antt =====
-- `AcquireDaemonLock` with its checks (internal/infra/sysd/lock_linux.go). The file system, `flock` and the user id are
-- parameters.
use a2text.Base.{
  ℕ, not, ◌||◌, ◌==◌, Bool, Option, none, some, List, [], ◌∷◌, String, Text, is_empty,
  if◌then◌else◌,
}
use a2text.Base.Int.{ℤ, pos, ltb_ℤ}
use a2text.Config.Load.{FileInfo, Step, ok, failed, same_owner}

pub data LockError : Type 0 where
  empty_path not_a_directory unsafe_permissions no_owner uid_out_of_range wrong_owner : LockError
  is_symlink not_absolute already_running : LockError
  stat_failed open_failed flock_failed truncate_failed write_failed sync_failed : String → LockError

pub data FlockAnswer : Type 0 where
  granted would_block : FlockAnswer
  refused : String → FlockAnswer

-- What the calls answer. `symlink` tells that `Lstat` finds a symbolic link at the path.
pub record Answers : Type 0 where
  pub parent : Step FileInfo
  pub uid : ℤ
  pub symlink : Bool
  pub is_abs : Bool
  pub opening : Option String
  pub flock : FlockAnswer
  pub truncate : Option String
  pub write : Option String
  pub sync : Option String

-- The calls on the lock file that have an effect.
pub data FileCall : Type 0 where
  opened locked truncated pid_written synced unlocked closed : FileCall

abbrev pub Acquire : Type 0
Acquire = Option LockError × List FileCall

abbrev owner_error : ℤ → Option ℕ → Option LockError
owner_error uid none = some no_owner
owner_error uid (some o) =
    if ltb_ℤ uid (pos 0) || ltb_ℤ (pos 4294967295) uid
    then some uid_out_of_range
    else if not (same_owner uid (some o))
    then some wrong_owner
    else none

unfoldable pub verify_parent_dir_is_private : ℤ → Step FileInfo → Option LockError
unfolding same_owner
verify_parent_dir_is_private uid (failed e) = some (stat_failed e)
verify_parent_dir_is_private uid (ok info) =
    if not info.is_dir
    then some not_a_directory
    else if not (info.perm == 448)
    then some unsafe_permissions
    else owner_error uid info.owner

unfoldable pub validate_lock_path : Bool → Bool → Option LockError
validate_lock_path symlink is_abs =
    if symlink then some is_symlink else if not is_abs then some not_absolute else none

-- From a granted `flock` on: each failure unlocks and closes.
unfoldable pub write_pid : Option String → Option String → Option String → Acquire
write_pid (some e) w s = (some (truncate_failed e), opened ∷ locked ∷ unlocked ∷ closed ∷ [])
write_pid none (some e) s =
    (some (write_failed e), opened ∷ locked ∷ truncated ∷ unlocked ∷ closed ∷ [])
write_pid none none (some e) =
    (some (sync_failed e), opened ∷ locked ∷ truncated ∷ pid_written ∷ unlocked ∷ closed ∷ [])
write_pid none none none = (none, opened ∷ locked ∷ truncated ∷ pid_written ∷ synced ∷ [])

unfoldable pub take_lock : FlockAnswer → Acquire → Acquire
take_lock granted rest = rest
take_lock would_block rest = (some already_running, opened ∷ closed ∷ [])
take_lock (refused e) rest = (some (flock_failed e), opened ∷ closed ∷ [])

unfoldable pub open_file : Option String → Acquire → Acquire
open_file (some e) rest = (some (open_failed e), [])
open_file none rest = rest

unfoldable pub unless : Option LockError → Acquire → Acquire
unless (some e) rest = (some e, [])
unless none rest = rest

-- From the open on.
unfoldable pub open_and_lock : Answers → Acquire
unfolding open_file take_lock
open_and_lock a = open_file a.opening (take_lock a.flock (write_pid a.truncate a.write a.sync))

unfoldable pub acquire_daemon_lock : Text → Answers → Acquire
unfolding unless
acquire_daemon_lock path a =
    if is_empty path
    then (some empty_path, [])
    else unless (verify_parent_dir_is_private a.uid a.parent)
        (unless (validate_lock_path a.symlink a.is_abs) (open_and_lock a))

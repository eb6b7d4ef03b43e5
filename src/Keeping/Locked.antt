-- ===== src/Keeping/Locked.antt =====
-- What an attempt to take the daemon's lock leaves behind (internal/infra/sysd/lock_linux.go).
use a2text.Base.{
  Bool, true, false, Bool-cases, Option, none, some, List, [], ◌∷◌, String, Text, is_empty, ◌≡◌,
  refl, inl, inr, arith, if◌then◌else◌,
}
use a2text.Base.Int.{ℤ}
use a2text.Config.Load.{FileInfo, Step, ok, failed}
use a2text.Keeping.Lock.{
  LockError, empty_path, Answers, FlockAnswer, granted, would_block, refused, FileCall, opened,
  locked, truncated, pid_written, synced, unlocked, closed, Acquire, verify_parent_dir_is_private,
  validate_lock_path, write_pid, take_lock, open_file, unless, open_and_lock, acquire_daemon_lock,
}

-- The handle of the file, in the life that the calls give it.
pub data Handle : Type 0 where
  absent unheld held : Handle

-- A call that the handle does not allow gives none.
unfoldable pub step : Handle → FileCall → Option Handle
step absent opened = some unheld
step unheld locked = some held
step unheld closed = some absent
step held truncated = some held
step held pid_written = some held
step held synced = some held
step held unlocked = some unheld
step _ _ = none

unfoldable pub life : Handle → List FileCall → Option Handle
unfolding step
life h [] = some h
life h (c ∷ cs) = elim (step h c) [ none ↦ none | some g ↦ life g cs ]

-- The end of an attempt: the handle is held exactly on success, and an error leaves nothing open.
abbrev pub IsSettled : Acquire → Type 0
IsSettled (none, calls) =
    (life absent calls ≡ some held)
    × (calls ≡ opened ∷ locked ∷ truncated ∷ pid_written ∷ synced ∷ [])
IsSettled (some e, calls) = life absent calls ≡ some absent

write_pid-IsSettled : (t w s : Option String) → IsSettled (write_pid t w s)
unfolding write_pid life
write_pid-IsSettled (some e) w s = refl
write_pid-IsSettled none (some e) s = refl
write_pid-IsSettled none none (some e) = refl
write_pid-IsSettled none none none = (refl, refl)

take_lock-IsSettled : (f : FlockAnswer) (r : Acquire) → IsSettled r → IsSettled (take_lock f r)
unfolding take_lock life
take_lock-IsSettled granted r h = h
take_lock-IsSettled would_block r h = refl
take_lock-IsSettled (refused e) r h = refl

open_file-IsSettled : (o : Option String) (r : Acquire) → IsSettled r → IsSettled (open_file o r)
unfolding open_file life
open_file-IsSettled (some e) r h = refl
open_file-IsSettled none r h = h

unless-IsSettled : (o : Option LockError) (r : Acquire) → IsSettled r → IsSettled (unless o r)
unfolding unless life
unless-IsSettled (some e) r h = refl
unless-IsSettled none r h = h

open_and_lock-IsSettled : (a : Answers) → IsSettled (open_and_lock a)
unfolding open_and_lock
open_and_lock-IsSettled a =
    open_file-IsSettled a.opening (take_lock a.flock (write_pid a.truncate a.write a.sync)) (
      take_lock-IsSettled a.flock (write_pid a.truncate a.write a.sync)
        (write_pid-IsSettled a.truncate a.write a.sync))

-- However the calls answer, they are made in an order that the file allows; with a lock the process id was written and
-- synced under it and it is still held, and with an error no handle and no lock is left behind.
pub acquire_daemon_lock-IsSettled :
    (path : Text) (a : Answers) → IsSettled (acquire_daemon_lock path a)
unfolding acquire_daemon_lock life
acquire_daemon_lock-IsSettled path a = go (is_empty path)
  where
    private : Option LockError
    private = verify_parent_dir_is_private a.uid a.parent

    safe : Option LockError
    safe = validate_lock_path a.symlink a.is_abs

    go :
        (b : Bool)
        → IsSettled
            (if b then (some empty_path, []) else unless private (unless safe (open_and_lock a)))
    go true = refl
    go false =
        unless-IsSettled private (unless safe (open_and_lock a))
          (unless-IsSettled safe (open_and_lock a) (open_and_lock-IsSettled a))

unless-none :
    (o : Option LockError) (r : Acquire) → (unless o r).0 ≡ none → (o ≡ none) × (r.0 ≡ none)
unfolding unless
unless-none (some e) r h = ground arith
unless-none none r h = (refl, h)

private-none :
    (uid : ℤ) (s : Step FileInfo)
    → verify_parent_dir_is_private uid s ≡ none
    → (info : FileInfo) × (s ≡ ok info) × (info.is_dir ≡ true) × (info.perm ≡ 448)
unfolding verify_parent_dir_is_private
private-none uid (failed e) h = ground arith
private-none uid (ok info) h = (info, refl, ground arith, ground arith)

safe-none : (l b : Bool) → validate_lock_path l b ≡ none → (l ≡ false) × (b ≡ true)
unfolding validate_lock_path
safe-none l b h = ground arith

-- A lock is taken only in a directory with mode 0700, and not at a symbolic link or a relative path.
pub acquire_daemon_lock-private :
    (path : Text) (a : Answers)
    → (acquire_daemon_lock path a).0 ≡ none
    → ((info : FileInfo) × (a.parent ≡ ok info) × (info.is_dir ≡ true) × (info.perm ≡ 448))
      × (a.symlink ≡ false)
      × (a.is_abs ≡ true)
unfolding acquire_daemon_lock
acquire_daemon_lock-private path a h = elim (Bool-cases (is_empty path)) [
  | inl e ↦ ground arith
  | inr e ↦
      let (private, rest) =
        unless-none (verify_parent_dir_is_private a.uid a.parent)
          (unless (validate_lock_path a.symlink a.is_abs) (open_and_lock a)) (ground arith) in
      let (safe, taken) =
        unless-none (validate_lock_path a.symlink a.is_abs) (open_and_lock a) rest in
      let (link, absolute) = safe-none a.symlink a.is_abs safe in
      (private-none a.uid a.parent private, link, absolute)
]

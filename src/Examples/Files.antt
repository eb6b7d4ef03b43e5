-- ===== src/Examples/Files.antt =====
-- Recordings, sweeps, archives and downloads with concrete answers.
use a2text.Base.{◌^◌, true, false, none, some, [], ◌∷◌, ◌++◌, Text, codes, ◌≡◌, refl, ◌↔◌}
use a2text.Base.Int.{pos}
use a2text.Config.Normal.{lower_ascii}
use a2text.Capture.Process
use a2text.Capture.Process.{Child, First, RunError, default_stop_grace}
use a2text.Capture.Record.{Backend, Options, Machine, Temp, record_to_file}
use a2text.Capture.Recorded.{RunEnds, run-RunEnds, record_to_file-Keeps}
use a2text.Capture.Recorded
use a2text.Keeping.Sessions.{Entry, sweep}
use a2text.Keeping.Orphans
use a2text.Keeping.Orphans.{IsOrphan, sweep_iff}
use a2text.Keeping.Archive.{Disk, archive, make_name}
use a2text.Keeping.Archived
use a2text.Keeping.Archived.{archive-Keeps}
use a2text.Keeping.Lock.{Answers, granted, acquire_daemon_lock}
use a2text.Keeping.Locked.{IsSettled, acquire_daemon_lock-IsSettled}
use a2text.Config.Load.{Step}
use a2text.Keeping.Download.{
  Status, Source, download, try_all_sources, fetch_one, after_write, renaming, write_partial,
  copy_with_progress, stopped, fails_to_write, or_later, is_present, or_default,
}
use a2text.Keeping.Downloaded.{IsInPlace, download-IsInPlace}

-- A child that is stopped by the timer and ends in time.
abbrev child : Child
child = record {
  start_error = none;
  first = First.timer_fired;
  in_grace = λ _. true;
  exit_after = λ _. some "interrupted";
  has_done = true;
  ctx_err = λ _. none;
}

run-RunEnds_example :
    RunEnds child default_stop_grace [] (Process.run child (pos 5) default_stop_grace [])
run-RunEnds_example = run-RunEnds child (pos 5) []

abbrev machine : Machine
machine = record {
  backend = Backend.pipewire;
  child = λ _. child;
  temp = Temp.created (codes "/tmp/a2text-voice-1.wav") none;
  itoa = λ _. codes "16000";
  validate = λ _ _. none;
}

abbrev options : Options
options = record { duration = pos 5; output_path = []; sample_rate = pos 16000; channels = pos 1 }

record_to_file-Keeps_example : Recorded.Keeps machine options [] (record_to_file machine options [])
record_to_file-Keeps_example = record_to_file-Keeps machine options []

abbrev old_session : Entry
old_session = record {
  name = codes "a2text-12";
  lstat_fails = false;
  is_dir = true;
  perm = 448;
  mod_time = 0;
  removable = true;
}

abbrev other_dir : Entry
other_dir = record old_session { name = codes "cache" }

sweep_iff_example : Orphans.Among other_dir (sweep (10 ^ 15) (old_session ∷ other_dir ∷ [])) ↔ (
    Orphans.Among other_dir (old_session ∷ other_dir ∷ [])
    × ¬ (IsOrphan (10 ^ 15) other_dir × (true ≡ true)))
sweep_iff_example = sweep_iff (10 ^ 15) other_dir (old_session ∷ other_dir ∷ [])

abbrev disk : Disk
disk = record {
  stamp = codes "20260515T172347Z";
  path_of = λ dir name. dir ++ (47 ∷ name);
  has_transcoder = false;
  make_dir = λ _. none;
  copy = λ _. none;
  encode = λ _. none;
  rename = λ _. none;
}

archive-Keeps_example :
    Archived.Keeps disk
      (codes "/tmp/a.wav")
      (disk.path_of (codes "/data") (make_name lower_ascii disk (codes "wav")))
      []
      (archive lower_ascii disk (codes "/tmp/a.wav") (codes "/data") (codes "wav") [])
archive-Keeps_example =
    archive-Keeps lower_ascii disk (codes "/tmp/a.wav") (codes "/data") (codes "wav") []

-- A mirror that is down, and one that serves three bytes in two reads.
abbrev down : Source
down = record {
  open_error = some "503";
  create_error = none;
  body = [];
  close_error = none;
  rename_error = none;
  body_close_error = none;
}

abbrev up : Source
up = record down {
  open_error = none;
  body =
      record { bytes = 1 ∷ 2 ∷ []; write_error = none; status = Status.more }
      ∷ record { bytes = 3 ∷ []; write_error = none; status = Status.eof }
      ∷ [];
}

abbrev join_path : Text → Text → Text
join_path dir name = dir ++ (47 ∷ name)

download-IsInPlace_example :
    IsInPlace
      (codes "/models/ggml-small.bin")
      (down ∷ up ∷ [])
      (download
        (λ _. none)
        join_path
        (codes "ggml-small.bin")
        (codes "/models")
        none
        none
        (down ∷ up ∷ [])
        []
        []).1
unfolding download try_all_sources fetch_one after_write renaming write_partial copy_with_progress
    stopped fails_to_write or_later is_present or_default
download-IsInPlace_example =
    download-IsInPlace (λ _. none) join_path (codes "ggml-small.bin") (codes "/models") none none
      (down ∷ up ∷ []) [] [] refl

-- A disk on which the process id cannot be written.
abbrev full_disk : Answers
full_disk = record {
  parent = Step.ok (record { is_dir = true; owner = some 1000; perm = 448 });
  uid = pos 1000;
  symlink = false;
  is_abs = true;
  opening = none;
  flock = granted;
  truncate = none;
  write = some "no space left";
  sync = none;
}

acquire_daemon_lock-IsSettled_example :
    IsSettled (acquire_daemon_lock (codes "/run/daemon.pid") full_disk)
acquire_daemon_lock-IsSettled_example =
    acquire_daemon_lock-IsSettled (codes "/run/daemon.pid") full_disk

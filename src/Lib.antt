-- ===== src/Lib.antt =====
-- a2text is a dictation daemon: a hotkey starts a recording of the microphone, a second edge stops it, the audio
-- is transcribed by one of several backends, and the text is handed to an output. This library models the parts
-- that decide what happens, and leaves out those that only call the system.
--
-- The parts, and where they are modelled:
--
-- Domain: internal/domain, the vocabulary of states, events, actions, errors and phases.
--
-- Voice: internal/usecases/voice/state_machine.go. `transition` is the table (Transition), `apply` and
-- `apply_with_error` the machine (Machine). A call of the machine holds its mutex, so a call is one step; the
-- listener is told what the call returns. Table has the lifecycle diagram as a data type of edges.
--
-- Cycle: internal/usecases/voice/voice.go, streaming.go, record_oneshot.go and transcribe_file.go. A cycle is a
-- function to a result and a trace of effects, the latest first. What the recorder, the backends, the outputs, the
-- archiver, the file system and the contexts answer is a function of the trace, so that a context may be cancelled, a
-- pointer swapped or a file gone between any two calls. Deferred calls are applied behind the result. Text is a list
-- of runes, so that trimming is that of the source. Errors of a dependency are known by their text.
--
-- Daemon: internal/infra/daemon. Completion has the goroutine's calls on the machine after a cycle, one at a time.
-- System has the shared state and a step for each thread: user events, the timer, the dispatch of an action that a
-- call returned, the goroutine's return, its calls, its end, and the shutdown. A thread may stop between any two of
-- its calls. The cycle itself is one step that may return anything: what it returns is the subject of Cycle. Debounce
-- is the toggle's debounce, HoldGate the minimum duration of a hold, with each section under its mutex and each dispatch
-- behind it as a step of its own, Keys the handler that maps edges to events.
--
-- Stt: pkg/stt/retry.go, pkg/stt/fallback.go and internal/infra/factory/silence_gate.go, which wrap a backend. The
-- backend, the context, the sleep, the classifier of errors and the loudness of a file are parameters.
--
-- Stt.DeepgramStream is the handler of pkg/stt/deepgram_stream.go as a function of the events that it sees, in their
-- order; Heard describes what makes up the text; SkipHeader is its own reading of a WAV header, on fuel, one more than the length of the stream behind the
-- magic, and Connect its options. Whether the SDK connects, and what it sends, are arguments.
--
-- Config: internal/infra/config/config.go. Schema has the fields, Normal the migration, the normalisation and the
-- defaults, Validate the checks in their order, Valid an independent description of what passes, Keys the check for
-- unknown keys, Load the steps of the loader, ./config.local.yaml included. viper, url.Parse, the file system and unicode.ToLower are parameters; of
-- the last only what IsLowering says is used. The silence threshold is known by how it compares with 0.
--
-- Settings: internal/adapters/settings/save.go. Document is Go's map as a list of entries with runs of assignments and
-- deletions, Save the edits of each section in the source's order, with the file system, the YAML library and the text
-- of a duration as parameters; Shown lists the settings of the window independently. A file has scalars and one level
-- of sections.
--
-- Output: internal/adapters/output/clipboard.go and clipboard_autopaste.go, with the output that the factory puts into
-- it, as a function to a result and a trace of effects, as in Cycle; and the choices of
-- internal/infra/factory/output_builder.go and of pkg/clipboard/autopaste_linux.go and x11_autopaste.go, from what is
-- installed and which session runs.
--
-- Capture: pkg/capture/subprocess_linux.go, the program that records, how it is stopped, and what becomes of its file.
--
-- Factory: internal/infra/factory, the choice of a backend, its retries and a converter.
--
-- Keeping: internal/infra/daemon/tempclean.go, internal/infra/sysd/lock_linux.go, pkg/audioarchive/archiver.go, the directory that
-- internal/infra/factory/kept_audio.go chooses, and pkg/whispercpp/download.go, over what the disk and the network answer.
--
-- Hotkey: pkg/hotkey/evdev_linux.go. A packet of 24 bytes is decoded and drives the listener's state; the number of
-- the event type EV_KEY and the bitmaps of devices come from the kernel and are parameters. Readers has the readers of
-- several devices, which call the handler behind the mutex.
--
-- Wav: pkg/audio/wav/wav.go on a finite stream of bytes. Parsing runs on fuel, one more than the length of the stream
-- behind the magic; each round reads at least eight bytes. A sample is the integer in front of the division by
-- 32768.0. Layout describes a file independently of the decoder.
--
-- How they interact: Hotkey's edges and the tray reach the daemon, which feeds the machine and dispatches the action
-- that it returns; a started cycle calls the wrapped backend and the output, and its result comes back to the machine
-- through Completion. Config's accepted configuration is what Factory and Output build from, and what
-- Settings writes is what Config's loader reads.
--
-- Numbers: durations are int64 where the source doubles or multiplies them, with the wrap-around written out (Base.Int);
-- positions and counts of samples are bounded by the 500 MB of a data chunk. The clock that debouncing reads does not
-- wrap.
--
-- Not modelled: the REST clients, the converter, systemd's units and sockets, the settings window and the tray: input
-- and output, or glue. Logging is left out everywhere. In Cycle, a nil receiver and the capture subprocess of streaming are left out; opening it succeeds or
-- fails. In Wav, opening a file and the float duration are left out.
pub mod Base
pub mod Capture
pub mod Config
pub mod Cycle
pub mod Daemon
pub mod Domain
pub mod Examples
pub mod Factory
pub mod Hotkey
pub mod Keeping
pub mod Output
pub mod Settings
pub mod Stt
pub mod Voice
pub mod Wav

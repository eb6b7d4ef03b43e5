-- ===== src/Cycle/Clean.antt =====
-- What a cycle leaves behind (internal/usecases/voice/voice.go and streaming.go): the temporary file, the capture and
-- the streamer.
use a2text.Base.{false, some, Text, ◌≡◌, ◌⊎◌}
use a2text.Cycle.World.{Trace, World, Result, CycleResult, CycleError}
use a2text.Cycle.Holding.{IsHolding, IsClean}
use a2text.Cycle.Pipeline.{validate_recorded_file}

-- How a cycle ends: it leaves nothing, or it fails since the recorded file does not pass its check, and leaves that
-- file alone.
abbrev pub Ends : World → Result CycleResult × Trace → Type 0
Ends w r =
    IsClean r.1
    ⊎ ((path : Text) × (e : CycleError) × (tr : Trace) × (r.0 ≡ Result.err e)
        × (validate_recorded_file w tr path ≡ Result.err e)
        × IsHolding (some path) false false r.1)

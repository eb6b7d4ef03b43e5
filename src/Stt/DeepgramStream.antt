-- ===== src/Stt/DeepgramStream.antt =====
-- The handler of pkg/stt/deepgram_stream.go: which final transcripts make up the text, and the helpers that prepare
-- the connection. The events are those that its goroutine and the drain loop see, in their order.
use a2text.Base.{
  ℕ, suc, Bool, true, false, not, ◌&&◌, Option, none, some, List, [], ◌∷◌, ◌++◌, Text, is_empty,
  trim_space, if◌then◌else◌,
}

-- A `MessageResponse`: the transcripts of its alternatives.
pub record Message : Type 0 where
  pub alternatives : List Text
  pub is_final : Bool

-- What ends or prolongs the wait of `drainUntilQuiet`.
pub data Wake : Type 0 where
  close_seen hard_cap quiet final_signal : Wake

pub data Event : Type 0 where
  message : Option Message → Event
  server_error close_response other_event : Event
  drain_begins : Event
  wake : Wake → Event

pub record Handler : Type 0 where
  pub finals : List Text
  pub closed : Bool
  pub drain_started : Bool
  pub drain_ended : Bool
  pub finals_during_drain : ℕ
  pub signal : Bool

unfoldable pub new_handler : Handler
new_handler = record {
  finals = [];
  closed = false;
  drain_started = false;
  drain_ended = false;
  finals_during_drain = 0;
  signal = false;
}

unfoldable pub handle_final : Text → Handler → Handler
handle_final t h = record h {
  finals = if h.drain_ended then h.finals else h.finals ++ (t ∷ []);
  finals_during_drain =
      if h.drain_started && not h.drain_ended
      then suc h.finals_during_drain
      else h.finals_during_drain;
  signal = true;
}

-- The transcript that a message adds, if it is final and not empty.
unfoldable pub final_of : List Text → Bool → Option Text
final_of [] final = none
final_of (t ∷ ts) final =
    if is_empty (trim_space t) then none else if final then some (trim_space t) else none

unfoldable pub add : Option Text → Handler → Handler
add none h = h
add (some t) h = handle_final t h

unfoldable pub handle_message : Option Message → Handler → Handler
unfolding final_of add handle_final
handle_message none h = h
handle_message (some m) h = add (final_of m.alternatives m.is_final) h

-- The start of `drainUntilQuiet`, and its reaction to a wake-up.
unfoldable pub on_wake : Wake → Handler → Handler
on_wake Wake.final_signal h = record h { signal = false }
on_wake _ h = record h { drain_ended = true }

unfoldable pub on_event : Event → Handler → Handler
unfolding handle_message on_wake
on_event (Event.message m) h = handle_message m h
on_event Event.server_error h = h
on_event Event.close_response h = record h { closed = true }
on_event Event.other_event h = h
on_event Event.drain_begins h = record h { drain_started = true; finals_during_drain = 0 }
on_event (Event.wake k) h = on_wake k h

unfoldable pub run : List Event → Handler → Handler
unfolding on_event
run [] h = h
run (e ∷ es) h = run es (on_event e h)

-- `strings.Join(finals, " ")`
unfoldable pub join : List Text → Text
join [] = []
join (t ∷ []) = t
join (t ∷ u ∷ rest) = t ++ (32 ∷ join (u ∷ rest))

unfoldable pub text : Handler → Text
unfolding join
text h = join h.finals

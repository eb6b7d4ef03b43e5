-- ===== src/Stt/Connect.antt =====
-- The connection of pkg/stt/deepgram_stream.go: the options that are sent, and `Stream`. The SDK's answers and
-- `url.Parse` are arguments.
use a2text.Base.{
  Bool, true, false, not, ◌||◌, Option, none, some, List, [], ◌++◌, Text, String, codes, is_empty,
  trim_space, same_text, ◌≡◌, if◌then◌else◌, arith,
}
use a2text.Config.Url.{Url}
use a2text.Stt.DeepgramStream.{Event, new_handler, run, text}

unfoldable pub deepgram_model_or_default : Text → Text
deepgram_model_or_default model =
    if is_empty (trim_space model) then codes "nova-2" else trim_space model

unfoldable pub sdk_language_or_empty : Text → Text
sdk_language_or_empty lang =
    if is_empty (trim_space lang) || same_text (trim_space lang) (codes "auto")
    then []
    else trim_space lang

module _ (parse : Text → Option Url) where
  host_of : Option Url → Text
  host_of none = []
  host_of (some u) = u.host

  -- The host, or the given text where there is none, with and without a scheme put before it.
  unfoldable pub extract_host_for_sdk : Text → Text
  unfolding host_of
  extract_host_for_sdk raw =
      let base = trim_space raw in
      let host = host_of (parse base) in
      let again = host_of (parse (codes "https://" ++ base)) in
      if is_empty base
      then []
      else if not (is_empty host)
      then host
      else if not (is_empty again)
      then again
      else base

  -- The host is never left empty when a base URL is given.
  pub extract_host_for_sdk-some :
      (raw : Text) → is_empty (trim_space raw) ≡ false → is_empty (extract_host_for_sdk raw) ≡ false
  unfolding extract_host_for_sdk
  extract_host_for_sdk-some raw h = ground arith

-- What the SDK does: the error of its constructor, whether it connects, and the events until the client is stopped.
pub record Session : Type 0 where
  pub client_error : Option String
  pub connects : Bool
  pub events : List Event

pub data Streamed : Type 0 where
  transcript : Text → Streamed
  ws_client : String → Streamed
  ws_connect_failed : Streamed

connected : Bool → List Event → Streamed
connected true es = Streamed.transcript (text (run es new_handler))
connected false es = Streamed.ws_connect_failed

opened : Option String → Session → Streamed
unfolding connected
opened (some e) s = Streamed.ws_client e
opened none s = connected s.connects s.events

-- `DeepgramStreamTranscriber.Stream`
unfoldable pub stream : Session → Streamed
unfolding opened
stream s = opened s.client_error s

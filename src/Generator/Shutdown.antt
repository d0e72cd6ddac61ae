-- ===== src/Generator/Shutdown.antt =====
-- What `start` leaves of its session, on every way in which it ends.
use streaming_protocol_lt.Base.{◌<◌, ◌≡◌, true, false, List, String}
use streaming_protocol_lt.Real.{Real}
use streaming_protocol_lt.Json.{Json}
use streaming_protocol_lt.Session
use streaming_protocol_lt.Session.{ProducerSignal, put_out, subscribe_signals, remove_loop}
use streaming_protocol_lt.Session.Ids.{has_id}
use streaming_protocol_lt.Generator.Run.{Outcome, finished, aborted, undefined}
use streaming_protocol_lt.Generator.Start.{Ended}

-- A finished run has removed its signals from the session and closes it. A run that is aborted leaves
-- them there, and the session open.
pub data HasSettled {J R S : Type 0} (signals : List (String × ProducerSignal J))
    : Outcome (Ended J R S) → Type 0 where
  shut :
      (e : Ended J R S)
      → ((id : String) → has_id id e.session.signals ≡ false)
      → e.session.closing ≡ true
      → e.generator.end_time < e.generator.time
      → HasSettled signals (finished e)
  left_open :
      (e : Ended J R S)
      → ((id : String) → has_id id e.session.signals ≡ has_id id signals)
      → e.session.closing ≡ false
      → HasSettled signals (aborted e)
  lost : HasSettled signals undefined

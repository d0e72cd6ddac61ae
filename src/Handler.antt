-- ===== src/Handler.antt =====
-- include/streaming_protocol/ProtocolHandler.hpp and lib/ProtocolHandler.cpp: the consumer's state
-- machine, which reads headers and payloads from the stream and hands the payloads on. The stream is
-- given by the bytes that it received and that are not consumed, and by the read that is waiting.
-- The log callback is left out; the control requests to the producer are in Control.
pub mod Payload
pub mod Reads
pub mod Frames
pub mod Ended
pub mod Closing
use streaming_protocol_lt.Base.{
  Bool, ℕ, zero, suc, String, true, List, length, take, drop, Option, none, some, leb, eqb,
  if◌then◌else◌,
}
use streaming_protocol_lt.Base.Result.{Result, ok, fails, throws, aborts, Method, then_run}
use streaming_protocol_lt.Base.Words.{from_bytes}
use streaming_protocol_lt.Real.{Real}
use streaming_protocol_lt.Json.{Json}
use streaming_protocol_lt.Wire.{header_signal_number, header_type, header_length}
use Payload.{
  ErrorCode, protocol_error, stream_error, success, Session, close_session, process_payload,
  with_no_stream,
}

-- The callback of a read.
pub data Callback : Type 0 where
  header additional_length payload : Callback

-- `pending`: the read that was started and not called back, with the number of bytes it waits for.
pub record Handler (J R : Type 0) : Type 0 where
  pub received : List ℕ
  pub pending : Option (Callback × ℕ)
  pub header_word : ℕ
  pub length_word : ℕ
  pub signal_number : ℕ
  pub type : ℕ
  pub session : Session J R

module _ {J R : Type 0} (json : Json J R) (real : Real R) where
  abbrev close : ErrorCode → Handler J R → Handler J R
  close ec h = record h { session = close_session ec h.session }

  unfoldable pub stop : Handler J R → Handler J R
  stop h = close success h

  unfoldable pub on_init_complete : ErrorCode → Handler J R → Handler J R
  on_init_complete success h = record h { pending = some (header, 4) }
  on_init_complete ec h = close ec h

  -- The completion callback may be an empty function.
  abbrev given_stream : Bool → Handler J R → Handler J R
  given_stream has_callback h = record h {
    session = record h.session { has_stream = true; has_completion = has_callback };
  }

  -- The stream and the callback are kept, and the initialisation is started, which calls back
  -- `on_init_complete`. The host of the stream comes back beside the handler: control requests go
  -- there.
  unfoldable start : Bool → String → Handler J R → Handler J R × String
  start has_callback stream_host h = (given_stream has_callback h, stream_host)

  -- The initialisation has been waited for. The host stays the old one.
  unfoldable start_with_sync_init : Bool → ErrorCode → String → Handler J R → Handler J R × String
  unfolding on_init_complete
  start_with_sync_init has_callback ec remote_host h =
      (on_init_complete ec (given_stream has_callback h), remote_host)

  unfoldable pub on_header : ErrorCode → Handler J R → Handler J R
  unfolding from_bytes header_signal_number header_type header_length
  on_header success h =
      let word : ℕ = from_bytes 4 h.received in
      let size : ℕ = header_length word in
      record h {
        received = drop 4 h.received;
        header_word = word;
        signal_number = header_signal_number word;
        type = header_type word;
        length_word = size;
        pending = some (if eqb size 0 then (additional_length, 4) else (payload, size));
      }
  on_header ec h = close ec h

  unfoldable pub on_additional_length : ErrorCode → Handler J R → Handler J R
  unfolding from_bytes
  on_additional_length success h =
      let size : ℕ = from_bytes 4 h.received in
      record h { received = drop 4 h.received; length_word = size; pending = some (payload, size) }
  on_additional_length ec h = close ec h

  -- The session after the payload: the payload is consumed and the next header is read; a session
  -- that was closed (`fails`) only returns.
  abbrev pub after_payload :
      Handler J R → Result (Unit {0}) × Session J R → Result (Unit {0}) × Handler J R
  after_payload h (ok u, s) = (
    ok tt,
    record h { received = drop h.length_word h.received; pending = some (header, 4); session = s },
  )
  after_payload h (fails, s) = (ok tt, record h { session = s })
  after_payload h (throws e, s) = (throws e, record h { session = s })
  after_payload h (aborts, s) = (aborts, record h { session = s })

  unfoldable pub on_payload : ErrorCode → Method (Handler J R) (Unit {0})
  on_payload success h =
      after_payload h
        (process_payload json real h.type h.signal_number (take h.length_word h.received) h.session)
  on_payload ec h = (ok tt, close ec h)

  unfoldable pub on_close : Handler J R → Handler J R
  on_close h = record h { session = with_no_stream h.session }

  -- The callback of a read that ended.
  unfoldable pub call_back : Callback → ErrorCode → Method (Handler J R) (Unit {0})
  unfolding on_header on_additional_length on_payload
  call_back header ec h = (ok tt, on_header ec h)
  call_back additional_length ec h = (ok tt, on_additional_length ec h)
  call_back payload ec h = on_payload ec h

  abbrev pub ready : Option (Callback × ℕ) → Method (Handler J R) (Unit {0})
  ready none h = (ok tt, h)
  ready (some (callback, n)) h =
      if leb n (length h.received)
      then call_back callback success (record h { pending = none })
      else (ok tt, h)

  -- The io context: up to the given number of callbacks, each when enough bytes are received.
  unfoldable pub run : ℕ → Method (Handler J R) (Unit {0})
  unfolding call_back
  run zero h = (ok tt, h)
  run (suc k) h = then_run (ready h.pending h) (λ _. run k)

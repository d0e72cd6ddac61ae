-- ===== src/Handler/Payload.antt =====
-- What the protocol handler of lib/ProtocolHandler.cpp does with a payload, and the end of its
-- session. `fails` is the return after closing the session.
use streaming_protocol_lt.Base.{
  ℕ, suc, String, Bool, false, List, [], ◌∷◌, ◌++◌, eqb, if◌then◌else◌,
}
use streaming_protocol_lt.Base.Result.{Result, ok, fails, throws, aborts, Method, then_run}
use streaming_protocol_lt.Real.{Real}
use streaming_protocol_lt.Json.{Json}
use streaming_protocol_lt.Wire.{
  type_value, type_signaldata, type_metainformation, metainformation_msgpack,
}
use streaming_protocol_lt.Meta.{MetaInformation, interpret, method, params}
use streaming_protocol_lt.StreamMeta.{StreamMeta, process_stream_metainformation}
use streaming_protocol_lt.Container.{SignalContainer}
use streaming_protocol_lt.Container.Meta.{process_metainformation}
use streaming_protocol_lt.Container.Measured.{process_container_data}

pub data ErrorCode : Type 0 where
  success protocol_error : ErrorCode
  stream_error : ℕ → ErrorCode

-- `closes` counts the calls of the stream's `asyncClose`; `stream_meta_calls` and `completions` are
-- the arguments of the calls of the two callbacks.
pub record Session (J R : Type 0) : Type 0 where
  pub has_stream : Bool
  pub has_completion : Bool
  pub session_ec : ErrorCode
  pub closes : ℕ
  pub stream_meta : StreamMeta
  pub meta_information : MetaInformation J
  pub container : SignalContainer J R
  pub stream_meta_calls : List (String × J)
  pub completions : List ErrorCode

-- Measured data that is refused is logged.
abbrev pub logged : Result ℕ → Result (Unit {0})
logged (ok n) = ok tt
logged fails = ok tt
logged (throws e) = throws e
logged aborts = aborts

module _ {J R : Type 0} where
  unfoldable pub close_session : ErrorCode → Session J R → Session J R
  close_session ec s = record s {
    session_ec = ec;
    closes = if s.has_stream then suc s.closes else s.closes;
  }

  -- `onClose`
  unfoldable pub with_no_stream : Session J R → Session J R
  with_no_stream s = record s {
    has_stream = false;
    completions = if s.has_completion then s.completions ++ s.session_ec ∷ [] else s.completions;
  }

  abbrev pub refuse : Method (Session J R) (Unit {0})
  refuse s = (fails, close_session protocol_error s)

  -- An error of a component closes the session.
  abbrev pub or_refuse : Result (Unit {0}) × Session J R → Result (Unit {0}) × Session J R
  or_refuse (fails, s) = refuse s
  or_refuse (ok u, s) = (ok u, s)
  or_refuse (throws e, s) = (throws e, s)
  or_refuse (aborts, s) = (aborts, s)

module _ {J R : Type 0} (json : Json J R) (real : Real R) where
  unfoldable pub data_payload : ℕ → List ℕ → Method (Session J R) (Unit {0})
  data_payload number bytes s =
      let (r, c) = process_container_data number bytes s.container in
      (logged r, record s { container = c })

  abbrev pub interpreted : List ℕ → Method (Session J R) (Unit {0})
  interpreted bytes s =
      let (r, m) = interpret json bytes s.meta_information in (r, record s { meta_information = m })

  abbrev pub announced : Method (Session J R) (Unit {0})
  announced s =
      then_run (method json s.meta_information, s)
        λ m s'. (
          ok tt,
          record s' {
            stream_meta_calls = s'.stream_meta_calls ++ (m, params json s'.meta_information) ∷ [];
          },
        )

  unfoldable pub stream_payload : Method (Session J R) (Unit {0})
  stream_payload s =
      let (r, m) = process_stream_metainformation json s.meta_information s.stream_meta in
      then_run (or_refuse (r, record s { stream_meta = m })) λ _ s'.
        if eqb s'.meta_information.type metainformation_msgpack then announced s' else refuse s'

  unfoldable pub signal_payload : ℕ → Method (Session J R) (Unit {0})
  signal_payload number s =
      let (r, c) = process_metainformation json real number s.meta_information s.container in
      or_refuse (r, record s { container = c })

  unfoldable pub meta_payload : ℕ → List ℕ → Method (Session J R) (Unit {0})
  unfolding stream_payload signal_payload
  meta_payload number bytes s =
      then_run (or_refuse (interpreted bytes s))
        λ _. if eqb number 0 then stream_payload else signal_payload number

  unfoldable pub process_payload : ℕ → ℕ → List ℕ → Method (Session J R) (Unit {0})
  unfolding data_payload meta_payload
  process_payload type number bytes =
      if eqb type (type_value type_signaldata)
      then data_payload number bytes
      else if eqb type (type_value type_metainformation)
      then meta_payload number bytes
      else refuse

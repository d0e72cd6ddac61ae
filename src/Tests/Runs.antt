-- ===== src/Tests/Runs.antt =====
-- The theorems on the container and the protocol handler at concrete inputs.
use streaming_protocol_lt.Base.{
  ℕ, ◌≡◌, ◌≢◌, ◌≤◌, ◌⊎◌, inl, inr, refl, sym, subst, List, [], ◌∷◌, ◌++◌, arith,
}
use streaming_protocol_lt.Base.Int.{ℤ}
use streaming_protocol_lt.Base.Words.{to_bytes}
use streaming_protocol_lt.Base.Result.{ok, fails, aborts}
use streaming_protocol_lt.Types.{RuleType, explicit, constant, linear, ruletype_unknown}
use streaming_protocol_lt.Wire.{type_signaldata}
use streaming_protocol_lt.Signal.Definition.{process_signal_metainformation, set_signal_id}
use streaming_protocol_lt.Signal.Measured.{time_stamp, process_measured_data}
use streaming_protocol_lt.Container.Measured.{process_container_data}
use streaming_protocol_lt.Container.{SignalContainer, new_container}
use streaming_protocol_lt.Container.Maps.{find_number, find_text, put_number, has}
use streaming_protocol_lt.Container.Members.{time_of, is_data}
use streaming_protocol_lt.Container.Meta.{
  process_metainformation, member_for, subscribe_member, apply_meta, finish_meta,
}
use streaming_protocol_lt.Container.Invariant.{InTable, IsWellFormed, new_container-IsWellFormed}
use streaming_protocol_lt.Container.Data.{time_bytes, process_container_data-IsWellFormed}
use streaming_protocol_lt.Container.Safety.{process_metainformation-IsWellFormed}
use streaming_protocol_lt.Meta.{MetaInformation, method, params}
use streaming_protocol_lt.Handler.{header, run, on_payload, on_close, call_back, on_init_complete}
use streaming_protocol_lt.Handler.Payload.{
  success, protocol_error, stream_error, process_payload, close_session,
}
use streaming_protocol_lt.Handler.Reads.{waiting}
use streaming_protocol_lt.Handler.Frames.{Message, Arrived, handle, callbacks, frames, run-frames}
use streaming_protocol_lt.Handler.Ended.{Refused, Open}
use streaming_protocol_lt.Handler.Closing.{
  process_payload-Refused, call_back-error, on_payload-refused,
}
use streaming_protocol_lt.Tests.Items.{Value, text, object_of, item, end, find_item}
use streaming_protocol_lt.Tests.Values.{start_document, values, integers}
use streaming_protocol_lt.Tests.Data.{session, handler}

payload_example :
    let o = process_payload values integers 3 7 (1 ∷ []) session in
    ((o.0 ≡ fails) × Refused session o.1) ⊎ ((o.0 ≢ fails) × Open session o.1)
payload_example = process_payload-Refused values integers 3 7 (1 ∷ []) session

read_error_example :
    let failed = (call_back values integers header (stream_error 5) handler).1 in
    let aborted = on_init_complete values integers (stream_error 5) handler in
    (run values integers 9 failed ≡ (ok tt, failed))
    × (run values integers 9 aborted ≡ (ok tt, aborted))
    × ((on_close values integers failed).session.completions ≡ stream_error 5 ∷ [])
    × ((on_close values integers aborted).session.completions ≡ stream_error 5 ∷ [])
read_error_example = call_back-error values integers header 5 9 handler refl refl

refused_example :
    let closed = (on_payload values integers success handler).1 in
    (run values integers 9 closed ≡ (ok tt, closed))
    × (closed.session.session_ec ≡ protocol_error)
    × (closed.session.closes ≡ 1)
    × ((on_close values integers closed).session.completions ≡ protocol_error ∷ [])
unfolding process_payload
refused_example =
    on_payload-refused values integers 9 handler (close_session protocol_error session) refl refl
      refl

abbrev messages : List Message
messages =
    record { kind = type_signaldata; number = 7; content = 1 ∷ 0 ∷ 2 ∷ 0 ∷ [] }
    ∷ record { kind = type_signaldata; number = 7; content = 3 ∷ 0 ∷ [] }
    ∷ []

frames_example : Arrived values integers (9 ∷ []) (handle values integers messages session).1 (
    run values integers
      (callbacks messages)
      (waiting header 4 (frames 0 messages ++ 9 ∷ []) handler))
unfolding handle process_payload process_container_data process_measured_data time_stamp find_number
    find_text put_number
frames_example =
    run-frames values integers 0 messages (9 ∷ []) handler
      (handle values integers messages session).1
      ((omega arith, omega arith, omega arith), ((omega arith, omega arith, omega arith), tt)) refl

-- Meta information for signal 7: it is subscribed, then described.
abbrev subscribe : MetaInformation Value
subscribe = record { type = 2; json_content = start_document }

abbrev describe : MetaInformation Value
describe = record {
  type = 2;
  json_content = object_of (
      item "method" (text "signal")
        (item "params" (object_of (item "tableId" (text "table") end)) end));
}

abbrev subscribed : SignalContainer Value ℤ
subscribed = (process_metainformation values integers 7 subscribe new_container).1

in_no_table : (n : ℕ) → ¬ (InTable n [])
unfolding time_of is_data find_text has
in_no_table n (id, inl (p, e)) = p (sym e)
in_no_table n (id, inr e) = ground (arith, e)

subscribed-IsWellFormed : IsWellFormed subscribed
subscribed-IsWellFormed =
    process_metainformation-IsWellFormed values integers 7 subscribe new_container
      new_container-IsWellFormed (λ m s e q i. elim (in_no_table 7 i) [ ])

subscribed-tables : subscribed.tables ≡ []
unfolding process_metainformation method find_item member_for subscribe_member params find_number
    apply_meta process_signal_metainformation set_signal_id finish_meta
subscribed-tables = refl

container_example : IsWellFormed (process_metainformation values integers 7 describe subscribed).1
container_example =
    process_metainformation-IsWellFormed values integers 7 describe subscribed
      subscribed-IsWellFormed
      (λ m s e q i. elim (in_no_table 7 (subst (InTable 7) subscribed-tables i)) [ ])

abbrev described : SignalContainer Value ℤ
described = (process_metainformation values integers 7 describe subscribed).1

described-IsWellFormed : IsWellFormed described
described-IsWellFormed =
    process_metainformation-IsWellFormed values integers 7 describe subscribed
      subscribed-IsWellFormed
      (λ m s e q i. elim (in_no_table 7 (subst (InTable 7) subscribed-tables i)) [ ])

abbrev packet : List ℕ
packet = to_bytes 8 5 ++ to_bytes 8 6

time_bytes-le : (rule : RuleType) → time_bytes rule ≤ 16
time_bytes-le explicit = omega arith
time_bytes-le constant = omega arith
time_bytes-le linear = omega arith
time_bytes-le ruletype_unknown = omega arith

measured_example :
    IsWellFormed (process_container_data 7 packet described).1
    × ((process_container_data 7 packet described).0 ≢ aborts)
unfolding to_bytes
measured_example =
    process_container_data-IsWellFormed 7 packet described described-IsWellFormed
      (λ s e q. time_bytes-le s.rule_type)

-- ===== src/Generator/Start.antt =====
-- `start` of tool/SignalGenerator/signalgenerator.cpp: the session of the generated signals, before and
-- after the loop over the rounds, and initAfterSubscribeAck of generatedtimesignal.h.
use streaming_protocol_lt.Base.{ℕ, String, true, false, List, [], ◌∷◌, length, drop}
use streaming_protocol_lt.Base.Int.{ℤ}
use streaming_protocol_lt.Real.{Real}
use streaming_protocol_lt.Json.{Json}
use streaming_protocol_lt.Producer.{
  Written, set_time_start, write_linear_time, write_explicit_time, write_synchronous,
  write_asynchronous,
}
use streaming_protocol_lt.Producer.Samples.{data_type_name}
use streaming_protocol_lt.Producer.Tables.{asynchronous_type_name}
use streaming_protocol_lt.Session
use streaming_protocol_lt.Session.{
  ProducerSignal, ProducerSession, new_session, add_signals, subscribe_signals, unsubscribe_signals,
  remove_signals,
}
use streaming_protocol_lt.Generator.Function.{Arithmetic}
use streaming_protocol_lt.Generator.Signals.{time_ticks_from_time}
use streaming_protocol_lt.Generator.State.{
  Generated, linear_time, explicit_time, synchronous, asynchronous, SignalGenerator,
}
use streaming_protocol_lt.Generator.Run.{
  Outcome, finished, aborted, undefined, unfinished, Interrupt, run_loop, set_end,
}

module _ {J R : Type 0} (json : Json J R) (real : Real R) where
  -- What a session calls of the signal of `getSignal`.
  unfoldable pub producer_signal : Generated J R → ProducerSignal J
  unfolding write_linear_time write_explicit_time write_synchronous write_asynchronous
      data_type_name asynchronous_type_name
  producer_signal (linear_time g) = record {
    base = g.domain.base;
    is_data_signal = false;
    description = write_linear_time json real g;
  }
  producer_signal (explicit_time g) = record {
    base = g.base;
    is_data_signal = false;
    description = write_explicit_time json real g;
  }
  producer_signal (synchronous g) = record {
    base = g.signal.value.base;
    is_data_signal = true;
    description =
        write_synchronous json real g.signal.value (data_type_name g.sampler.parameters.value_type)
          g.signal.value_index;
  }
  producer_signal (asynchronous g) = record {
    base = g.signal.base;
    is_data_signal = true;
    description =
        write_asynchronous json real g.signal
          (asynchronous_type_name g.sampler.parameters.value_type);
  }

  unfoldable pub all_signals : List (String × Generated J R) → List (String × ProducerSignal J)
  unfolding producer_signal
  all_signals [] = []
  all_signals ((id, g) ∷ rest) = (id, producer_signal g) ∷ all_signals rest

unfoldable pub all_ids : {V : Type 0} → List (String × V) → List String
all_ids [] = []
all_ids ((id, v) ∷ rest) = id ∷ all_ids rest

abbrev pub send_data : {S : Type 0} → (ℕ → List ℕ → S → ℤ × S) → Written (List ℕ) → S → S
send_data write [] stream = stream
send_data write ((number, bytes) ∷ rest) stream = send_data write rest (write number bytes stream).1

abbrev pub send_meta : {J S : Type 0} → (ℕ → J → S → S) → Written J → S → S
send_meta write [] stream = stream
send_meta write ((number, meta) ∷ rest) stream = send_meta write rest (write number meta stream)

module _ {J R S : Type 0} (arithmetic : Arithmetic R)
    (write_signal_data : ℕ → List ℕ → S → ℤ × S) where
  -- Time signals write their start.
  unfoldable pub init_after_subscribe_ack : ℕ → Generated J R → S → Generated J R × S
  unfolding set_time_start time_ticks_from_time
  init_after_subscribe_ack now (linear_time g) stream =
      let (domain, written) =
        set_time_start (time_ticks_from_time arithmetic now g.domain.resolution.denominator)
          g.domain in
      (linear_time (record g { domain = domain }), send_data write_signal_data written stream)
  init_after_subscribe_ack now (explicit_time g) stream =
      let (domain, written) =
        set_time_start (time_ticks_from_time arithmetic now g.resolution.denominator) g in
      (explicit_time domain, send_data write_signal_data written stream)
  init_after_subscribe_ack now (synchronous g) stream = (synchronous g, stream)
  init_after_subscribe_ack now (asynchronous g) stream = (asynchronous g, stream)

  unfoldable pub init_all :
      ℕ → List (String × Generated J R) → S → List (String × Generated J R) × S
  unfolding init_after_subscribe_ack
  init_all now [] stream = ([], stream)
  init_all now ((id, g) ∷ rest) stream =
      let (g', stream') = init_after_subscribe_ack now g stream in
      let (rest', stream'') = init_all now rest stream' in ((id, g') ∷ rest', stream'')

-- The generator and its session when `start` returns, and the stream.
pub record Ended (J R S : Type 0) : Type 0 where
  pub generator : SignalGenerator J R
  pub session : ProducerSession J
  pub stream : S

module _ {J R : Type 0} (json : Json J R) (real : Real R) where
  -- The session starts, and the signals are added and subscribed.
  unfoldable pub open_session : String → List (String × Generated J R) → ProducerSession J
  unfolding new_session add_signals subscribe_signals all_signals all_ids Session.start
  open_session stream_id signals =
      (subscribe_signals json (all_ids signals) (
        add_signals json (all_signals json real signals)
          (Session.start (new_session json stream_id json.null)))).1

module _ {J R : Type 0} (json : Json J R) where
  -- The shutdown after the loop.
  unfoldable pub shut_down : List String → ProducerSession J → ProducerSession J
  unfolding remove_signals unsubscribe_signals Session.stop
  shut_down ids s = Session.stop (remove_signals json ids (unsubscribe_signals json ids s).1).1

module _ {J R S : Type 0} (json : Json J R) (write_meta : ℕ → J → S → S) where
  -- What follows the loop.
  unfoldable pub conclude :
      List String → ProducerSession J → Outcome (SignalGenerator J R × S) → Outcome (Ended J R S)
  unfolding shut_down
  conclude ids s (finished (g, stream)) =
      let s' = shut_down json ids s in
      finished (record {
        generator = g;
        session = s';
        stream = send_meta write_meta (drop (length s.written) s'.written) stream;
      })
  conclude ids s (aborted (g, stream)) =
      aborted (record { generator = g; session = s; stream = stream })
  conclude ids s undefined = undefined
  conclude ids s unfinished = unfinished

-- Data of the signals and meta information of the session go to the same stream.
module _ {J R S : Type 0} (json : Json J R) (real : Real R) (arithmetic : Arithmetic R) (tick : ℕ)
    (write_signal_data : ℕ → List ℕ → S → ℤ × S) (write_meta : ℕ → J → S → S) where
  unfoldable pub start :
      ℕ → List Interrupt → String → SignalGenerator J R → S → Outcome (Ended J R S)
  unfolding open_session conclude init_all run_loop set_end
  start fuel interrupts stream_id g stream =
      let s = open_session json real stream_id g.generated_signals in
      let (signals, stream') =
        init_all arithmetic write_signal_data g.time g.generated_signals
          (send_meta write_meta s.written stream) in
      conclude json write_meta (all_ids g.generated_signals) s (
        run_loop real arithmetic tick write_signal_data fuel interrupts
          (record (set_end tick g) { generated_signals = signals }) stream')

-- ===== src/Tests/Sessions.antt =====
-- The theorems on the producer's session, the server and the data of value signals, at concrete
-- inputs.
use streaming_protocol_lt.Base.{
  ℕ, ◌%◌, ◌^◌, String, ◌≡◌, refl, Bool, true, false, ◌&&◌, List, [], ◌∷◌, ◌++◌, none, some, take,
  length, if◌then◌else◌, arith, ◌==◌,
}
use streaming_protocol_lt.Base.Int.{pos, negsuc, to_size}
use streaming_protocol_lt.Base.Result.{ok}
use streaming_protocol_lt.Base.Text.{stoi, remove_code}
use streaming_protocol_lt.Producer.{BaseSignal}
use streaming_protocol_lt.Session.{
  ProducerSignal, ProducerSession, Call, add, add_all, take_away, subscribe, run, new_session,
  subscribe_signals, write_initial_metainformation,
}
use streaming_protocol_lt.Session.View.{listed}
use streaming_protocol_lt.Session.Ids.{has_id, all_suit}
use streaming_protocol_lt.Session.Announced.{known_ids, listed-known_ids}
use streaming_protocol_lt.Session.Counts.{found, answers, subscribe_signals-found}
use streaming_protocol_lt.Session.Greeting.{receive, post_interface, greeting}
use streaming_protocol_lt.Server.{Sessions, update_available_signals}
use streaming_protocol_lt.Server.Updates.{all_there, AllLost, update_available_signals-AllLost}
use streaming_protocol_lt.Signal.Doubles.{reading, interpret_values_as_double}
use streaming_protocol_lt.Producer.Data.{fill_entries, add_data_asynchronous}
use streaming_protocol_lt.Producer.Entries.{interpret_values-fill_entries}
use streaming_protocol_lt.Producer.Packets.{
  write_scripted, value_packets, add_data_asynchronous-packets,
}
use streaming_protocol_lt.Tests.Items.{Value, nothing}
use streaming_protocol_lt.Tests.Values.{values}
use streaming_protocol_lt.Tests.Data.{status, casts, session}

abbrev base : ℕ → String → BaseSignal Value
base number id = record {
  signal_number = number;
  signal_id = id;
  table_id = "table";
  interpretation_object = nothing;
}

abbrev voltage : ProducerSignal Value
voltage = record { base = base 7 "voltage"; is_data_signal = true; description = [] }

abbrev time : ProducerSignal Value
time = record { base = base 8 "time"; is_data_signal = false; description = [] }

-- All ids but "time" are those of data signals.
abbrev kind : String → Bool
kind id = if id == "time" then false else true

abbrev calls : List (Call Value)
calls =
    add voltage
    ∷ add_all (("current", voltage) ∷ ("time", time) ∷ [])
    ∷ subscribe ("voltage" ∷ "time" ∷ [])
    ∷ take_away ("current" ∷ "unknown" ∷ [])
    ∷ []

announced_example :
    listed "voltage" (known_ids values (run values calls (new_session values "stream" nothing))) ≡ (
      kind "voltage"
      && has_id "voltage" (run values calls (new_session values "stream" nothing)).signals)
unfolding all_suit
announced_example = listed-known_ids values kind "stream" nothing calls "voltage" refl

abbrev two_signals : ProducerSession Value
two_signals = record {
  stream_id = "stream";
  signals = ("voltage", voltage) ∷ ("time", time) ∷ [];
  written = [];
  reading = true;
  closing = false;
  errors = [];
}

subscribed_example :
    let r = subscribe_signals values ("time" ∷ "unknown" ∷ "voltage" ∷ []) two_signals in
    let v = found ("time" ∷ "unknown" ∷ "voltage" ∷ []) two_signals.signals in
    (r.0 ≡ length v)
    × (r.1.written ≡ two_signals.written ++ answers values v)
    × (r.1.signals ≡ two_signals.signals)
subscribed_example =
    subscribe_signals-found values ("time" ∷ "unknown" ∷ "voltage" ∷ []) two_signals

greeting_example :
    receive values
      (write_initial_metainformation values "stream"
        (post_interface values "/control" "1.0" "7438"))
      session.stream_meta
    ≡ (
      ok tt,
      record {
        api_version = "1.5.0";
        stream_id = "stream";
        http_control_path = "/control";
        http_control_port = "7438";
        http_version = to_size (pos 10) % 2 ^ 32;
      },
    )
unfolding stoi remove_code
greeting_example =
    greeting values "stream" "/control" "1.0" "7438" (pos 10) session.stream_meta refl refl

abbrev sessions : Sessions Value
sessions = ("one", some two_signals) ∷ ("two", some two_signals) ∷ []

update_example :
    (after : Sessions Value) × (update_available_signals values ("voltage" ∷ []) [] sessions
      ≡ ok after)
    × AllLost ("voltage" ∷ []) sessions after
unfolding all_there
update_example = update_available_signals-AllLost values ("voltage" ∷ []) [] sessions refl

entries_example :
    interpret_values_as_double casts status
      (fill_entries 2 0
        ((0, 5) ∷ (9, 65535) ∷ [])
        (1 ∷ 2 ∷ 3 ∷ 4 ∷ 5 ∷ 6 ∷ 7 ∷ 8 ∷ 9 ∷ 10 ∷ 1 ∷ 2 ∷ 3 ∷ 4 ∷ 5 ∷ 6 ∷ 7 ∷ 8 ∷ 9 ∷ 10 ∷ []))
      2
    ≡ (2, pos 5 ∷ negsuc 0 ∷ [])
unfolding reading
entries_example =
    interpret_values-fill_entries casts status 2 _ ((0, 5) ∷ (9, 65535) ∷ [])
      (1 ∷ 2 ∷ 3 ∷ 4 ∷ 5 ∷ 6 ∷ 7 ∷ 8 ∷ 9 ∷ 10 ∷ 1 ∷ 2 ∷ 3 ∷ 4 ∷ 5 ∷ 6 ∷ 7 ∷ 8 ∷ 9 ∷ 10 ∷ []) refl
      refl (omega arith, (omega arith, tt)) (omega arith)

abbrev tuples : List (ℕ × ℕ)
tuples = (10, 1) ∷ (11, 2) ∷ (12, 3) ∷ []

packets_example :
    ((add_data_asynchronous write_scripted 2 7 tuples (none ∷ some 4 ∷ [], [])).0 ≡ negsuc 4)
    × ((add_data_asynchronous write_scripted 2 7 tuples (none ∷ some 4 ∷ [], [])).1.1
        ≡ [] ++ take 2 (value_packets 2 7 tuples))
packets_example = add_data_asynchronous-packets 2 7 (none ∷ some 4 ∷ []) tuples []

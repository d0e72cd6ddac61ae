-- ===== src/Session.antt =====
-- lib/ProducerSession.cpp and include/streaming_protocol/ProducerSession.hpp: the producer's side
-- of one connected client. A signal is what the session calls of it: its id, its kind, and the
-- meta information of its description. The stream is the list of what is written to it, with the
-- signal numbers.
pub mod View
pub mod Ids
pub mod Loops
pub mod Announced
pub mod Counts
pub mod Greeting
use streaming_protocol_lt.Base.{
  ℕ, zero, suc, ◌+◌, String, Bool, true, false, List, [], ◌∷◌, ◌++◌, Option, none, some, map,
  if◌then◌else◌,
}
use streaming_protocol_lt.Json.{Json}
use streaming_protocol_lt.Json.Object.{Members}
use streaming_protocol_lt.Container.Maps.{find_text, put_text, erase_text}
use streaming_protocol_lt.Producer.{BaseSignal, Written, write_subscribe, write_unsubscribe}

pub record ProducerSignal (J : Type 0) : Type 0 where
  pub base : BaseSignal J
  pub is_data_signal : Bool
  pub description : Written J

-- The stream has an end point, and an asynchronous operation of it may be waited for.
pub record ProducerSession (J : Type 0) : Type 0 where
  pub stream_id : String
  pub signals : List (String × ProducerSignal J)
  pub written : Written J
  pub reading : Bool
  pub closing : Bool
  pub errors : List ℕ

module _ {J : Type 0} where
  unfoldable pub put_out : Written J → ProducerSession J → ProducerSession J
  put_out w s = record s { written = s.written ++ w }

  -- `map::insert` keeps the value of a key that is there.
  unfoldable pub insert_signals :
      List (String × ProducerSignal J)
      → List (String × ProducerSignal J)
      → List (String × ProducerSignal J)
  insert_signals [] m = m
  insert_signals ((k, v) ∷ rest) m =
      insert_signals rest (elim (find_text k m) [ none ↦ put_text k v m | some old ↦ m ])

  -- The ids of the data signals of a map.
  unfoldable pub data_ids : List (String × ProducerSignal J) → List String
  data_ids [] = []
  data_ids ((k, v) ∷ rest) =
      let others = data_ids rest in if v.is_data_signal then k ∷ others else others

  -- The loop of removeSignals: the number removed, the ids of the data signals, the map.
  unfoldable pub remove_loop :
      List String
      → List (String × ProducerSignal J)
      → ℕ × List String × List (String × ProducerSignal J)
  remove_loop [] m = (0, [], m)
  remove_loop (id ∷ ids) m = elim (find_text id m) [
    | none ↦ remove_loop ids m
    | some v ↦
        let (count, removed, m') = remove_loop ids (erase_text id m) in
        (suc count, (if v.is_data_signal then id ∷ removed else removed), m')
  ]

  -- Nothing is written for no ids.
  abbrev pub announce : (List String → Written J) → List String → Written J
  announce f [] = []
  announce f (id ∷ ids) = f (id ∷ ids)

  -- The signals that are there are called in order, and counted.
  unfoldable pub call_signals :
      (ProducerSignal J → Written J) → List String → ProducerSession J → ℕ × ProducerSession J
  unfolding put_out
  call_signals f [] s = (0, s)
  call_signals f (id ∷ ids) s = elim (find_text id s.signals) [
    | none ↦ call_signals f ids s
    | some v ↦ let (count, s') = call_signals f ids (put_out (f v) s) in (suc count, s')
  ]

  -- Reading from the client starts, and goes on until there is an error. What is read is dropped.
  unfoldable pub start : ProducerSession J → ProducerSession J
  start s = record s { reading = true }

  unfoldable pub on_read : ℕ → ProducerSession J → ProducerSession J
  on_read zero s = record s { reading = true }
  on_read (suc ec) s = record s { reading = false; errors = s.errors ++ suc ec ∷ [] }

  unfoldable pub stop : ProducerSession J → ProducerSession J
  stop s = record s { closing = true }

  -- An error on close is only logged.
  unfoldable pub on_close : ℕ → ProducerSession J → ProducerSession J
  on_close ec s = record s { closing = false }

module _ {J R : Type 0} (json : Json J R) where
  open json use {from_text, object, array, is_object}

  -- `push_back` makes the array with the first id.
  abbrev pub ids_member : List String → Members J
  ids_member [] = []
  ids_member (id ∷ ids) =
      ("params", object (("signalIds", array (map from_text (id ∷ ids))) ∷ [])) ∷ []

  unfoldable pub write_available : List String → Written J
  write_available ids = (0, object (("method", from_text "available") ∷ ids_member ids)) ∷ []

  unfoldable pub write_unavailable : List String → Written J
  write_unavailable ids = (0, object (("method", from_text "unavailable") ∷ ids_member ids)) ∷ []

  unfoldable pub api_version_meta : J
  api_version_meta = object (
      ("method", from_text "apiVersion")
      ∷ ("params", object (("version", from_text "1.5.0") ∷ []))
      ∷ [])

  -- Command interfaces that are no object are left out.
  unfoldable pub init_meta : String → J → J
  init_meta stream_id command_interfaces =
      let interfaces : Members J =
        if is_object command_interfaces
        then ("commandInterfaces", command_interfaces) ∷ []
        else [] in
      object (
        ("method", from_text "init")
        ∷ ("params", object (("streamId", from_text stream_id) ∷ interfaces))
        ∷ [])

  unfoldable pub write_initial_metainformation : String → J → Written J
  unfolding api_version_meta init_meta
  write_initial_metainformation stream_id command_interfaces =
      (0, api_version_meta) ∷ (0, init_meta stream_id command_interfaces) ∷ []

  -- The constructor.
  unfoldable pub new_session : String → J → ProducerSession J
  unfolding write_initial_metainformation
  new_session stream_id command_interfaces = record {
    stream_id = stream_id;
    signals = [];
    written = write_initial_metainformation stream_id command_interfaces;
    reading = false;
    closing = false;
    errors = [];
  }

  -- A signal of the same id is replaced.
  unfoldable pub add_signal : ProducerSignal J → ProducerSession J → ProducerSession J
  unfolding write_available put_out
  add_signal signal s =
      let id : String = signal.base.signal_id in
      let s' : ProducerSession J = record s { signals = put_text id signal s.signals } in
      if signal.is_data_signal then put_out (write_available (id ∷ [])) s' else s'

  unfoldable pub add_signals :
      List (String × ProducerSignal J) → ProducerSession J → ProducerSession J
  unfolding write_available put_out insert_signals data_ids
  add_signals new s =
      put_out (announce write_available (data_ids new))
        (record s { signals = insert_signals new s.signals })

  unfoldable pub remove_signals : List String → ProducerSession J → ℕ × ProducerSession J
  unfolding write_unavailable put_out remove_loop
  remove_signals ids s =
      let (count, removed, signals) = remove_loop ids s.signals in
      (count, put_out (announce write_unavailable removed) (record s { signals = signals }))

  unfoldable pub remove_signal : String → ProducerSession J → ℕ × ProducerSession J
  unfolding remove_signals
  remove_signal id s = remove_signals (id ∷ []) s

  unfoldable pub subscribe_signals : List String → ProducerSession J → ℕ × ProducerSession J
  unfolding call_signals write_subscribe
  subscribe_signals = call_signals (λ v. write_subscribe json v.base v.description)

  unfoldable pub unsubscribe_signals : List String → ProducerSession J → ℕ × ProducerSession J
  unfolding call_signals write_unsubscribe
  unsubscribe_signals = call_signals (λ v. write_unsubscribe json v.base)

-- The calls of the session's interface.
pub data Call (J : Type 0) : Type 0 where
  add : ProducerSignal J → Call J
  add_all : List (String × ProducerSignal J) → Call J
  take_away : List String → Call J
  subscribe : List String → Call J
  unsubscribe : List String → Call J

module _ {J R : Type 0} (json : Json J R) where
  unfoldable pub perform : Call J → ProducerSession J → ProducerSession J
  unfolding add_signal add_signals remove_signals subscribe_signals unsubscribe_signals
  perform (add signal) s = add_signal json signal s
  perform (add_all new) s = add_signals json new s
  perform (take_away ids) s = (remove_signals json ids s).1
  perform (subscribe ids) s = (subscribe_signals json ids s).1
  perform (unsubscribe ids) s = (unsubscribe_signals json ids s).1

  unfoldable pub run : List (Call J) → ProducerSession J → ProducerSession J
  unfolding perform
  run [] s = s
  run (c ∷ cs) s = run cs (perform c s)

-- ===== src/Tests/Clients.antt =====
-- The theorems on the example client, at concrete inputs.
use streaming_protocol_lt.Base.{String, ◌≡◌, refl, List, [], ◌∷◌, ◌++◌, some, map}
use streaming_protocol_lt.Base.Int.{ℤ}
use streaming_protocol_lt.Base.Result.{ok}
use streaming_protocol_lt.Meta.{MetaInformation, method, params}
use streaming_protocol_lt.Session.{write_available}
use streaming_protocol_lt.Session.View.{listed}
use streaming_protocol_lt.Signal.Definition.{process_signal_metainformation, set_signal_id}
use streaming_protocol_lt.Container.{SignalContainer, new_container, meta_call}
use streaming_protocol_lt.Container.Maps.{find_number}
use streaming_protocol_lt.Container.Meta.{
  member_for, subscribe_member, apply_meta, process_metainformation,
}
use streaming_protocol_lt.Container.Invariant.{new_container-IsWellFormed}
use streaming_protocol_lt.Client.{Client, signal_meta_cb}
use streaming_protocol_lt.Client.Available.{
  hear, wanted, filtered, stream_metainformation_cb-write_available,
}
use streaming_protocol_lt.Client.Numbers.{has_number}
use streaming_protocol_lt.Client.Mirror.{Mirrors, process_metainformation-Mirrors}
use streaming_protocol_lt.Tests.Items.{Value, find_item}
use streaming_protocol_lt.Tests.Values.{values, integers, start_document}

abbrev filter : List String
filter = "b" ∷ "c" ∷ []

available_example :
    map (hear values filter) (write_available values ("a" ∷ "b" ∷ []))
    ≡ (0, ok (some ("b" ∷ []))) ∷ []
unfolding wanted filtered listed
available_example = stream_metainformation_cb-write_available values filter "a" ("b" ∷ [])

abbrev container : SignalContainer Value ℤ
container = new_container

abbrev client : Client ℤ
client = record { signal_infos = []; signal_filter = []; printed = [] }

-- The acknowledgement of the subscription of signal 7.
abbrev meta : MetaInformation Value
meta = record { type = 2; json_content = start_document }

mirrored : Mirrors values integers container client
unfolding has_number find_number
mirrored n = refl

accepted : (process_metainformation values integers 7 meta container).0 ≡ ok tt
unfolding process_metainformation method params find_item member_for subscribe_member find_number
    apply_meta process_signal_metainformation set_signal_id
accepted = refl

mirror_example :
    let c' = (process_metainformation values integers 7 meta container).1 in
    (m : String) × (c'.calls ≡ container.calls ++ meta_call 7 m (params values meta) ∷ [])
    × ((signal_meta_cb 7 "Voltage" 0 m client).0 ≡ ok tt)
    × Mirrors values integers c' (signal_meta_cb 7 "Voltage" 0 m client).1
mirror_example =
    process_metainformation-Mirrors values integers 7 meta container client "Voltage" 0
      new_container-IsWellFormed mirrored accepted

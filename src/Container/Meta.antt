-- ===== src/Container/Meta.antt =====
-- `SignalContainer::processMetaInformation` of lib/SignalContainer.cpp.
use streaming_protocol_lt.Base.{
  ℕ, String, Bool, true, false, ◌&&◌, List, [], ◌∷◌, ◌++◌, Option, none, some, ◌==◌, eqb,
  if◌then◌else◌,
}
use streaming_protocol_lt.Base.Result.{Result, ok, fails, aborts, Method, then_run}
use streaming_protocol_lt.Real.{Real}
use streaming_protocol_lt.Json.{Json}
use streaming_protocol_lt.Meta.{MetaInformation, method, params}
use streaming_protocol_lt.Signal.{SubscribedSignal, new_signal}
use streaming_protocol_lt.Signal.Definition.{process_signal_metainformation}
use streaming_protocol_lt.Container.{Table, meta_call, SignalContainer}
use streaming_protocol_lt.Container.Maps.{
  find_number, put_number, erase_number, find_text, put_text, erase_text, insert, remove,
}

abbrev pub new_table : Table
new_table = record { time_signal_number = 0; data_signal_numbers = [] }

abbrev pub is_empty : List ℕ → Bool
is_empty [] = true
is_empty (n ∷ ns) = false

-- `m_tables[id]`
abbrev pub table_or_new : Option Table → Table
table_or_new none = new_table
table_or_new (some t) = t

unfoldable pub without_member : ℕ → Bool → Table → Table
without_member number is_time t =
    if is_time
    then record t { time_signal_number = 0 }
    else record t { data_signal_numbers = remove number t.data_signal_numbers }

unfoldable pub with_member : ℕ → Bool → Table → Table
with_member number is_time t =
    if is_time
    then record t { time_signal_number = number }
    else record t { data_signal_numbers = insert number t.data_signal_numbers }

abbrev pub Tables : Type 0
Tables = List (String × Table)

-- An empty table is removed.
unfoldable pub store_table : String → Table → Tables → Tables
store_table id t tables =
    if eqb t.time_signal_number 0 && is_empty t.data_signal_numbers
    then erase_text id tables
    else put_text id t tables

abbrev leave_found : ℕ → Bool → String → Option Table → Tables → Tables
leave_found number is_time id none tables = tables
leave_found number is_time id (some t) tables =
    store_table id (without_member number is_time t) tables

unfoldable pub leave_table : ℕ → Bool → String → Tables → Tables
unfolding without_member store_table
leave_table number is_time id tables = leave_found number is_time id (find_text id tables) tables

unfoldable pub join_table : ℕ → Bool → String → Tables → Tables
unfolding with_member
join_table number is_time id tables =
    put_text id (with_member number is_time (table_or_new (find_text id tables))) tables

module _ {J R : Type 0} (json : Json J R) (real : Real R) where
  abbrev pub Stored : Type 0
  Stored = Option (Option (SubscribedSignal J R))

  -- An entry that has to be there, its pointer followed.
  abbrev pub stored : Option (Option (SubscribedSignal J R)) → Result (SubscribedSignal J R)
  stored none = fails
  stored (some none) = aborts
  stored (some (some s)) = ok s

  -- The tables without the signal that is unsubscribed; the signal itself is still there.
  unfoldable pub unsubscribe_member : ℕ → Method (SignalContainer J R) (SubscribedSignal J R)
  unsubscribe_member number c =
      then_run (stored (find_number number c.signals), c)
        λ s c'.
          (ok s, record c' { tables = leave_table number s.is_time_signal s.table_id c'.tables })

  abbrev pub emplace :
      ℕ
      → Option (Option (SubscribedSignal J R))
      → Method (SignalContainer J R) (SubscribedSignal J R)
  emplace number (some _) c = (fails, c)
  emplace number none c =
      let s = new_signal json real number in
      (ok s, record c { signals = put_number number (some s) c.signals })

  abbrev pub require_id : Option J → ℕ → Method (SignalContainer J R) (SubscribedSignal J R)
  require_id none number c = (fails, c)
  require_id (some id) number c = emplace number (find_number number c.signals) c

  -- A signal of this number that is there already is an error.
  unfoldable pub subscribe_member : J → ℕ → Method (SignalContainer J R) (SubscribedSignal J R)
  subscribe_member params = require_id (json.find params "signalId")

  unfoldable pub member_for : String → J → ℕ → Method (SignalContainer J R) (SubscribedSignal J R)
  member_for method params number c =
      if method == "unsubscribe"
      then unsubscribe_member number c
      else if method == "subscribe"
      then subscribe_member params number c
      else (stored (find_number number c.signals), c)

  -- After the signal took its meta information: the tables, the callback, the removal.
  unfoldable pub finish_meta :
      String → J → ℕ → SubscribedSignal J R → SignalContainer J R → SignalContainer J R
  finish_meta method params number s c =
      let tables : Tables =
        if method == "signal"
        then join_table number s.is_time_signal s.table_id c.tables
        else c.tables in
      let signals : List (ℕ × Option (SubscribedSignal J R)) =
        if method == "unsubscribe" then erase_number number c.signals else c.signals in
      record {
        signals = signals;
        tables = tables;
        calls = c.calls ++ meta_call s.signal_number method params ∷ [];
      }

  -- The signal is changed where the map holds it, also when it reports an error.
  unfoldable pub apply_meta :
      String → J → ℕ → SubscribedSignal J R → Method (SignalContainer J R) (Unit {0})
  apply_meta method params number s c =
      let (r, s') = process_signal_metainformation json real method params s in
      let c' : SignalContainer J R = record c { signals = put_number number (some s') c.signals } in
      then_run (r, c') λ _ d. (ok tt, finish_meta method params number s' d)

  -- `fails` is -1.
  unfoldable pub process_metainformation :
      ℕ → MetaInformation J → Method (SignalContainer J R) (Unit {0})
  process_metainformation number meta c =
      then_run (method json meta, c)
        λ m c'.
          then_run (member_for m (params json meta) number c')
            (apply_meta m (params json meta) number)

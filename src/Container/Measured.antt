-- ===== src/Container/Measured.antt =====
-- `SignalContainer::processMeasuredData` of lib/SignalContainer.cpp.
use streaming_protocol_lt.Base.{
  ℕ, List, [], ◌∷◌, ◌++◌, Option, none, some, length, drop, ltb, eqb, if◌then◌else◌,
}
use streaming_protocol_lt.Base.Result.{Result, ok, fails, aborts, Method, then_run}
use streaming_protocol_lt.Base.Words.{from_bytes}
use streaming_protocol_lt.Types.{RuleType, explicit}
use streaming_protocol_lt.Signal.{SubscribedSignal}
use streaming_protocol_lt.Signal.Measured.{DataEvent, process_measured_data}
use streaming_protocol_lt.Container.{Table, Call, data_call, SignalContainer}
use streaming_protocol_lt.Container.Maps.{find_number, put_number, find_text}
use streaming_protocol_lt.Container.Meta.{is_empty}

abbrev pub calls_of : {J : Type 0} → List DataEvent → List (Call J)
calls_of [] = []
calls_of (e ∷ es) = data_call e ∷ calls_of es

module _ {J R : Type 0} where
  -- `m_subscribedSignals[n]`: a number that is not there gets an entry with a null pointer.
  abbrev pub index_found :
      ℕ
      → Option (Option (SubscribedSignal J R))
      → SignalContainer J R
      → Option (SubscribedSignal J R) × SignalContainer J R
  index_found n none c = (none, record c { signals = put_number n none c.signals })
  index_found n (some o) c = (o, c)

  unfoldable pub index_signal :
      ℕ → SignalContainer J R → Option (SubscribedSignal J R) × SignalContainer J R
  index_signal n c = index_found n (find_number n c.signals) c

  abbrev pub deref :
      Option (SubscribedSignal J R) × SignalContainer J R → Result (Unit {0}) × SignalContainer J R
  deref (none, c) = (aborts, c)
  deref (some s, c) = (ok tt, c)

  -- The data signals of the table, each followed for the log.
  unfoldable pub touch_data_signals : List ℕ → Method (SignalContainer J R) (Unit {0})
  unfolding index_signal
  touch_data_signals [] c = (ok tt, c)
  touch_data_signals (n ∷ ns) c =
      let rest = touch_data_signals ns in then_run (deref (index_signal n c)) (λ _. rest)

  -- The signal is changed where the map holds it.
  abbrev pub store : ℕ → SubscribedSignal J R → SignalContainer J R → SignalContainer J R
  store number s c = record c { signals = put_number number (some s) c.signals }

  -- Result and callbacks of the signal's own processing.
  unfoldable pub pass_on :
      ℕ
      → List ℕ
      → Option (SubscribedSignal J R)
      → SubscribedSignal J R
      → SignalContainer J R
      → Result ℕ × SignalContainer J R
  pass_on number bytes time s c =
      let (r, s', events) = process_measured_data bytes time s in
      (r, record (store number s' c) { calls = c.calls ++ calls_of events })

  -- An explicit time: the time stamp alone. The table's loop sets it once for each data signal.
  -- `aborts`: a packet that is shorter than what is read of it.
  unfoldable pub explicit_time :
      ℕ
      → List ℕ
      → Option Table
      → SubscribedSignal J R
      → Method (SignalContainer J R) (SubscribedSignal J R)
  unfolding touch_data_signals
  explicit_time number bytes none s c = (ok s, c)
  explicit_time number bytes (some t) s c =
      if ltb (length bytes) 8
      then (aborts, c)
      else then_run (touch_data_signals t.data_signal_numbers c) (λ _ c'. (
        ok (if is_empty t.data_signal_numbers then s else record s { time = from_bytes 8 bytes }),
        c',
      ))

  -- An implicit time: the value index and the time stamp.
  unfoldable pub indexed_time :
      ℕ
      → List ℕ
      → Option Table
      → SubscribedSignal J R
      → Method (SignalContainer J R) (SubscribedSignal J R)
  unfolding touch_data_signals
  indexed_time number bytes none s c = (ok s, c)
  indexed_time number bytes (some t) s c =
      if ltb (length bytes) 16
      then (aborts, c)
      else then_run (touch_data_signals t.data_signal_numbers c) (λ _ c'. (
        ok (
            if is_empty t.data_signal_numbers then s else record s {
              linear_value_index = from_bytes 8 bytes;
              time = from_bytes 8 (drop 8 bytes);
            }),
        c',
      ))

  unfoldable pub time_data :
      ℕ → List ℕ → SubscribedSignal J R → RuleType → Method (SignalContainer J R) ℕ
  unfolding explicit_time indexed_time pass_on
  time_data number bytes s explicit c =
      then_run (explicit_time number bytes (find_text s.table_id c.tables) s c)
        λ s' c'. (ok (length bytes), (pass_on number bytes none s' c').1)
  time_data number bytes s _ c =
      then_run (indexed_time number bytes (find_text s.table_id c.tables) s c)
        λ s' c'. (ok (length bytes), store number s' c')

  unfoldable pub value_data :
      ℕ → List ℕ → SubscribedSignal J R → Option Table → Method (SignalContainer J R) ℕ
  unfolding index_signal pass_on
  value_data number bytes s none c = (ok (length bytes), c)
  value_data number bytes s (some t) c =
      if eqb t.time_signal_number 0
      then (fails, c)
      else let (time, c') = index_signal t.time_signal_number c in
        pass_on number bytes time (record s { time_signal = some t.time_signal_number }) c'

  abbrev pub dispatch :
      ℕ → List ℕ → Option (Option (SubscribedSignal J R)) → Method (SignalContainer J R) ℕ
  dispatch number bytes none c = (fails, c)
  dispatch number bytes (some none) c = (aborts, c)
  dispatch number bytes (some (some s)) c =
      if s.is_time_signal
      then time_data number bytes s s.rule_type c
      else value_data number bytes s (find_text s.table_id c.tables) c

  -- The number of bytes, or `fails` for -1.
  unfoldable pub process_container_data : ℕ → List ℕ → Method (SignalContainer J R) ℕ
  unfolding time_data value_data
  process_container_data number bytes c = dispatch number bytes (find_number number c.signals) c

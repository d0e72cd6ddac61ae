-- ===== src/Signal/Invariant.antt =====
-- What the meta information of a signal may change of it, and how a signal stays usable.
use streaming_protocol_lt.Base.{◌<◌, ◌≡◌, String, true, Option, none, some, arith}
use streaming_protocol_lt.Base.Result.{Result, ok, fails, throws, aborts, if_found, then_run}
use streaming_protocol_lt.Real.{Real}
use streaming_protocol_lt.Json.{Json}
use streaming_protocol_lt.Types.Checks.{IsPositive}
use streaming_protocol_lt.Signal.{SubscribedSignal}
use streaming_protocol_lt.Signal.Definition.{
  try_definition, set_table, set_signal_id, process_signal_metainformation,
}
use streaming_protocol_lt.Signal.Evolves.{Evolves, found-Evolving, try_definition-Evolving}

module _ {J R : Type 0} (json : Json J R) (real : Real R) where
  -- What a definition keeps and the table's part of a "signal" does not touch either.
  record Kept (s t : SubscribedSignal J R) : Type 0 where
    number : t.signal_number ≡ s.signal_number
    time_signal : s.is_time_signal ≡ true → t.is_time_signal ≡ true
    value_size : 0 < s.data_value_size → 0 < t.data_value_size
    resolution : IsPositive s.resolution → IsPositive t.resolution

  Kept-Evolves : (s t u : SubscribedSignal J R) → Kept s t → Evolves t u → Kept s u
  Kept-Evolves s t u k e = ground arith

  set_table-Kept : (params : J) (s : SubscribedSignal J R) → Kept s (set_table json real params s).1
  unfolding set_table
  set_table-Kept params s = ground arith

  set_signal_id-Kept :
      (o : Option J) (s : SubscribedSignal J R) → Kept s (set_signal_id json real o s).1
  unfolding set_signal_id
  set_signal_id-Kept none s = ground arith
  set_signal_id-Kept (some v) s = ground arith

  described-Kept :
      (params : J) (s : SubscribedSignal J R) (r : Result (Unit {0}) × SubscribedSignal J R)
      → Kept s r.1
      → Kept s
          (then_run r
            (λ _. if_found (json.find params "definition") (try_definition json real params))).1
  described-Kept params s (ok u, t) k = Kept-Evolves s t _ k (
      found-Evolving (json.find params "definition") _ (try_definition-Evolving json real params) t)
  described-Kept params s (fails, t) k = k
  described-Kept params s (throws e, t) k = k
  described-Kept params s (aborts, t) k = k

  process-Kept :
      (method : String) (params : J) (s : SubscribedSignal J R)
      → Kept s (process_signal_metainformation json real method params s).1
  unfolding process_signal_metainformation
  process-Kept method params s = ground (
    arith,
    set_signal_id-Kept (json.find params "signalId") s,
    described-Kept params s (set_table json real params s) (set_table-Kept params s),
  )

  pub process_signal_metainformation_keeps :
      (method : String) (params : J) (s : SubscribedSignal J R)
      → let t = (process_signal_metainformation json real method params s).1 in
        (t.signal_number ≡ s.signal_number)
        × (s.is_time_signal ≡ true → t.is_time_signal ≡ true)
        × (0 < s.data_value_size → 0 < t.data_value_size)
        × (IsPositive s.resolution → IsPositive t.resolution)
  process_signal_metainformation_keeps method params s =
      let k = process-Kept method params s in (k.number, k.time_signal, k.value_size, k.resolution)

  -- What the other parts rely on: a value has a size, and the resolution is no division by zero.
  abbrev pub IsUsable : SubscribedSignal J R → Type 0
  IsUsable s = (0 < s.data_value_size) × IsPositive s.resolution

  -- Whatever meta information a signal gets, and also when it is refused or throws half way, the
  -- signal keeps its number, a size that is not 0 and a resolution of positive numbers.
  pub process_signal_metainformation-IsUsable :
      (method : String) (params : J) (s : SubscribedSignal J R)
      → IsUsable s
      → let t = (process_signal_metainformation json real method params s).1 in
        (t.signal_number ≡ s.signal_number) × IsUsable t
  process_signal_metainformation-IsUsable method params s (size, resolution) =
      let k = process-Kept method params s in
      (k.number, (k.value_size size, k.resolution resolution))

  -- No meta information makes a time signal a data signal.
  pub process_signal_metainformation-time :
      (method : String) (params : J) (s : SubscribedSignal J R)
      → s.is_time_signal ≡ true
      → (process_signal_metainformation json real method params s).1.is_time_signal ≡ true
  process_signal_metainformation-time method params s h =
      (process-Kept method params s).time_signal h

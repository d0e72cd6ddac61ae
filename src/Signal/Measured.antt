-- ===== src/Signal/Measured.antt =====
-- `SubscribedSignal::processMeasuredData` of lib/SubscribedSignal.cpp. The two callbacks are recorded
-- with what they are called with, in the order of the calls.
use streaming_protocol_lt.Base.{
  ℕ, ◌+◌, ◌-◌, ◌*◌, ◌/◌, ◌%◌, ◌^◌, List, [], ◌∷◌, Option, none, some, length, eqb, if◌then◌else◌,
}
use streaming_protocol_lt.Base.Result.{Result, ok, fails}
use streaming_protocol_lt.Base.Words.{wrap64}
use streaming_protocol_lt.Types.{RuleType, ruletype_unknown, explicit, constant, linear}
use streaming_protocol_lt.Signal.{SubscribedSignal}

-- Signal number, time stamp and bytes; of values also their count.
pub data DataEvent : Type 0 where
  raw : ℕ → ℕ → List ℕ → DataEvent
  values : ℕ → ℕ → List ℕ → ℕ → DataEvent

-- uint64_t a - b
abbrev pub sub64 : ℕ → ℕ → ℕ
sub64 a b = (a + 2 ^ 64 - b) % 2 ^ 64

-- The number of bytes processed (or -1), the signal, and the calls.
abbrev pub Processed : Type 0 → Type 0 → Type 0
Processed J R = Result ℕ × SubscribedSignal J R × List DataEvent

module _ {J R : Type 0} where
  abbrev pub deliver : SubscribedSignal J R → ℕ → List ℕ → ℕ → List DataEvent
  deliver s stamp bytes count =
      raw s.signal_number stamp bytes ∷ values s.signal_number stamp bytes count ∷ []

  unfoldable pub time_stamp : SubscribedSignal J R → ℕ → ℕ
  time_stamp t index = wrap64 (t.time + sub64 index t.linear_value_index * t.linear_delta)

  -- Under a linear domain signal t.
  unfoldable pub linear_data :
      RuleType → List ℕ → SubscribedSignal J R → SubscribedSignal J R → Processed J R
  unfolding time_stamp
  linear_data explicit bytes t s =
      let count = length bytes / s.data_value_size in
      (
        ok (length bytes),
        record s {
          linear_delta = t.linear_delta;
          linear_value_index = wrap64 (s.linear_value_index + count);
        },
        deliver s (time_stamp t s.linear_value_index) bytes count,
      )
  linear_data constant bytes t s =
      let count = length bytes / (8 + s.data_value_size) in
      (ok (length bytes), record s { linear_delta = t.linear_delta }, deliver s t.time bytes count)
  linear_data _ bytes t s = (ok (length bytes), record s { linear_delta = t.linear_delta }, [])

  -- Under an explicit domain signal, or none: complete values only.
  unfoldable pub explicit_data : ℕ → List ℕ → SubscribedSignal J R → Processed J R
  explicit_data time bytes s =
      if eqb (length bytes % s.data_value_size) 0
      then (ok (length bytes), s, deliver s time bytes (length bytes / s.data_value_size))
      else (ok (length bytes), s, [])

  abbrev pub by_rule :
      RuleType → List ℕ → SubscribedSignal J R → SubscribedSignal J R → Processed J R
  by_rule linear bytes t s = linear_data s.rule_type bytes t s
  by_rule explicit bytes t s = explicit_data t.time bytes s
  by_rule constant bytes t s = (fails, s, [])
  by_rule ruletype_unknown bytes t s = (fails, s, [])

  unfoldable pub process_measured_data :
      List ℕ → Option (SubscribedSignal J R) → SubscribedSignal J R → Processed J R
  unfolding linear_data explicit_data
  process_measured_data bytes none s = explicit_data 0 bytes s
  process_measured_data bytes (some t) s = by_rule t.rule_type bytes t s

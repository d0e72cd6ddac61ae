-- ===== src/Tests/Descriptions.antt =====
-- The theorems on what a consumer knows of a described signal, at concrete inputs.
use streaming_protocol_lt.Base.{ℕ, List, ◌∷◌, map, ◌≡◌, refl, true, [], arith, ◌/◌}
use streaming_protocol_lt.Base.Int.{ℤ, pos}
use streaming_protocol_lt.Base.Result.{ok}
use streaming_protocol_lt.Types.{
  linear, u64, s16, explicit, is_one_to_one, unlimited, one_to_one, unit_id_seconds,
}
use streaming_protocol_lt.Producer.{
  BaseSignal, LinearTimeSignal, BaseValueSignal, write_subscribe, write_linear_time,
  write_synchronous,
}
use streaming_protocol_lt.Producer.Samples.{data_type_name, int16, size_of_type, sample_type}
use streaming_protocol_lt.Producer.Received.{receive}
use streaming_protocol_lt.Producer.DescribedTime.{receive-write_linear_time}
use streaming_protocol_lt.Producer.DescribedValues.{receive-write_synchronous}
use streaming_protocol_lt.Tests.Items.{Value, nothing, natural}
use streaming_protocol_lt.Tests.Values.{values, integers}
use streaming_protocol_lt.Producer.Data.{SynchronousSignal}
use streaming_protocol_lt.Handler.Frames.{AllFit}
use streaming_protocol_lt.Producer.Streaming.{add_batches, packet, consume, consume-add_batches}
use streaming_protocol_lt.Tests.Data.{voltage, time}

abbrev base : BaseSignal Value
base = record {
  signal_number = 8;
  signal_id = "clock";
  table_id = "one";
  interpretation_object = nothing;
}

abbrev clock : LinearTimeSignal Value
clock = record {
  domain = record {
    base = base;
    start_in_ticks = 0;
    resolution = record { numerator = 1; denominator = 1000 };
    epoch = "1970-01-01";
    unit_second = record { id = unit_id_seconds; display_name = "s"; quantity = "time" };
  };
  output_rate_in_ticks = 20;
}

described_time_example :
    receive values integers
      (write_subscribe values base (write_linear_time values integers clock))
      time
    ≡ (
      ok tt,
      record time {
        signal_id = "clock";
        table_id = "one";
        linear_delta = 20;
        linear_delta_json = natural 20;
        rule_type = linear;
        data_value_size = 8;
        member_name = "time";
        data_value_type = u64;
        unit = clock.domain.unit_second;
        is_time_signal = true;
        resolution = record { numerator = 1; denominator = 1000 };
        time_base_frequency = 1000 / 1;
        time_base_epoch = "1970-01-01";
      },
    )
described_time_example =
    receive-write_linear_time values integers clock refl time refl (omega arith)
      (omega arith, omega arith) (omega arith, omega arith)

abbrev volts : BaseValueSignal Value ℤ
volts = record {
  base = base;
  value_name = "value";
  unit = record { id = pos 5000; display_name = "V"; quantity = "voltage" };
  post_scaling = record { offset = pos 3; scale = pos 2 };
  range = record { low = pos 1; high = pos 9 };
  related_signals = [];
}

described_values_example :
    receive values integers
      (write_subscribe values base
        (write_synchronous values integers volts (data_type_name int16) 4))
      voltage
    ≡ (
      ok tt,
      record voltage {
        signal_id = "clock";
        table_id = "one";
        linear_value_index = 4;
        rule_type = explicit;
        data_value_size = 2;
        member_name = "value";
        data_value_type = s16;
        unit = volts.unit;
        range = record { low = pos 1; high = pos 9 };
        post_scaling = record { offset = pos 3; scale = pos 2 };
      },
    )
unfolding is_one_to_one unlimited one_to_one size_of_type sample_type
described_values_example =
    receive-write_synchronous values integers volts int16 4 voltage refl (omega arith) refl

abbrev producer : SynchronousSignal Value ℤ
producer = record { value = volts; value_index = 0 }

abbrev batches : List (List ℕ)
batches = (1 ∷ 2 ∷ 3 ∷ []) ∷ (65535 ∷ []) ∷ []

streaming_example :
    let packets = (add_batches 2 batches producer []).1 in
    (packets ≡ map (packet 2 producer.value.base.signal_number) batches)
    × AllFit packets
    × ((consume time packets voltage).linear_value_index
        ≡ (add_batches 2 batches producer []).0.value_index)
streaming_example =
    consume-add_batches 2 time voltage batches producer refl refl (omega arith) refl refl
      (omega arith) ((omega arith, omega arith, (omega arith, omega arith, tt)))

-- ===== src/Tests/Examples.antt =====
-- The theorems that have hypotheses, at concrete inputs.
use streaming_protocol_lt.Base.{◌<◌, ◌-◌, ◌^◌, ◌≡◌, ◌≢◌, ◌⊎◌, refl, [], ◌∷◌, arith}
use streaming_protocol_lt.Base.Int.{pos, negsuc}
use streaming_protocol_lt.Base.Words.{to_bytes}
use streaming_protocol_lt.Base.Result.{ok}
use streaming_protocol_lt.Types.{
  Resolution, parse_range, compose_range, parse_post_scaling, compose_post_scaling,
  parse_resolution, compose_resolution, unlimited, one_to_one, is_one_to_one,
}
use streaming_protocol_lt.Types.Checks.{IsPositive, parse_resolution-IsPositive}
use streaming_protocol_lt.Types.RoundTrip.{
  parse_range-compose_range, parse_post_scaling-compose_post_scaling,
  parse_resolution-compose_resolution,
}
use streaming_protocol_lt.Wire.{
  type_metainformation, create_transport_header, header_signal_number, header_type, header_length,
}
use streaming_protocol_lt.Wire.Header.{header-create_transport_header}
use streaming_protocol_lt.Signal.Definition.{process_signal_metainformation}
use streaming_protocol_lt.Signal.Invariant.{IsUsable, process_signal_metainformation-IsUsable}
use streaming_protocol_lt.Signal.Measured.{time_stamp}
use streaming_protocol_lt.Json.Object.{lookup}
use streaming_protocol_lt.Signal.Timeline.{timeline, process_packets, process_packets-timeline}
use streaming_protocol_lt.Signal.Doubles.{
  interpret_values_as_double, packed, interpret_values-u64_negative,
}
use streaming_protocol_lt.Producer.Numbers.{number_of, next_counter, number_of-next_counter}
use streaming_protocol_lt.Producer.Ticks.{
  nanoseconds_from_time_ticks, nanoseconds_from_time_ticks-exact,
}
use streaming_protocol_lt.Tests.Items.{
  Value, nothing, text, natural, object_of, item, end, find_item,
}
use streaming_protocol_lt.Tests.Values.{values, integers}
use streaming_protocol_lt.Producer.Samples.{int16, sample_type, size_of_type}
use streaming_protocol_lt.Producer.Converted.{doubles, interpret_values-sample_type}
use streaming_protocol_lt.Tests.Data.{time, voltage, counter, casts}

header_example :
    let word = (create_transport_header type_metainformation 7 0 300).word in
    (header_signal_number word ≡ 7) × (header_type word ≡ 2) × (header_length word ≡ 0)
header_example = header-create_transport_header type_metainformation 7 0 300 (omega arith)

timeline_example :
    process_packets time ((1 ∷ 0 ∷ 2 ∷ 0 ∷ []) ∷ (3 ∷ 0 ∷ []) ∷ []) voltage
    ≡ timeline 7 10 2 (time_stamp time 0) ((1 ∷ 0 ∷ 2 ∷ 0 ∷ []) ∷ (3 ∷ 0 ∷ []) ∷ [])
timeline_example =
    process_packets-timeline time voltage ((1 ∷ 0 ∷ 2 ∷ 0 ∷ []) ∷ (3 ∷ 0 ∷ []) ∷ []) refl refl
      (omega arith) (omega arith)

packed_example :
    interpret_values_as_double casts voltage (packed 2 (5 ∷ 65535 ∷ [])) 2
    ≡ (2, pos 5 ∷ negsuc 0 ∷ [])
unfolding sample_type size_of_type doubles
packed_example =
    interpret_values-sample_type casts int16 voltage (5 ∷ 65535 ∷ []) refl refl
      (omega arith, (omega arith, tt))

negative_example :
    interpret_values_as_double casts counter (to_bytes 8 (2 ^ 64 - 2)) 1 ≡ (1, negsuc 1 ∷ [])
negative_example =
    interpret_values-u64_negative casts counter (2 ^ 64 - 2) refl refl (omega arith) (omega arith)

signal_kept_example :
    let t = (process_signal_metainformation values integers "subscribe" nothing voltage).1 in
    (t.signal_number ≡ 7) × IsUsable values integers t
signal_kept_example =
    process_signal_metainformation-IsUsable values integers "subscribe" nothing voltage
      (omega arith, record { numerator = omega arith; denominator = omega arith })

range_example :
    parse_range values integers
      (values.object
        (compose_range values integers (record { low = negsuc 5; high = pos 1000 }) []))
      (unlimited values integers)
    ≡ (ok tt, record { low = negsuc 5; high = pos 1000 })
unfolding lookup
range_example =
    parse_range-compose_range values integers (record { low = negsuc 5; high = pos 1000 }) [] refl

post_scaling_example :
    parse_post_scaling values integers
      (values.object
        (compose_post_scaling values integers (record { offset = pos 2; scale = pos 3 }) []))
      (one_to_one values integers)
    ≡ (ok tt, record { offset = pos 2; scale = pos 3 })
unfolding lookup is_one_to_one
post_scaling_example =
    parse_post_scaling-compose_post_scaling values integers
      (record { offset = pos 2; scale = pos 3 }) [] refl

resolution_example :
    parse_resolution values integers
      (values.object
        (compose_resolution values integers (record { numerator = 1; denominator = 1000 }) []))
      (record { numerator = 1; denominator = 1 })
    ≡ ok (pos 1, record { numerator = 1; denominator = 1000 })
unfolding lookup
resolution_example =
    parse_resolution-compose_resolution values integers
      (record { numerator = 1; denominator = 1000 }) (record { numerator = 1; denominator = 1 }) []
      refl (omega arith, omega arith) (omega arith, omega arith)

abbrev no_fraction : Value
no_fraction = object_of (item "resolution" (object_of (item "num" (natural 0) end)) end)

abbrev milliseconds : Resolution
milliseconds = record { numerator = 1; denominator = 1000 }

no_fraction_example :
    IsPositive milliseconds × ((negsuc 0 ≢ negsuc 0) ⊎ (milliseconds ≡ milliseconds))
unfolding parse_resolution find_item
no_fraction_example =
    parse_resolution-IsPositive values integers no_fraction milliseconds milliseconds (negsuc 0)
      (record { numerator = omega arith; denominator = omega arith }) refl

numbers_example :
    let number = number_of (next_counter 0xfffff) in
    (0 < number) × (number < 2 ^ 20) × (number ≡ 1) × (next_counter 0xfffff < 2 ^ 32)
unfolding number_of
numbers_example = number_of-next_counter 0xfffff (omega arith)

ticks_example : nanoseconds_from_time_ticks 1500 1000 ≡ 1500000000
ticks_example =
    nanoseconds_from_time_ticks-exact 1500 1000 (omega arith) (omega arith) (omega arith)

abbrev int16_definition : Value
int16_definition = object_of (item "dataType" (text "int16") end)

-- ===== src/Signal/TypeName.antt =====
-- The data type that `SubscribedSignal::processSignalMetaInformation` of lib/SubscribedSignal.cpp reads
-- from a definition.
use streaming_protocol_lt.Base.{String, Option, none, some, ◌==◌, if◌then◌else◌}
use streaming_protocol_lt.Base.Result.{ok, fails, Method, ◌>>◌, write, if_found, then_run}
use streaming_protocol_lt.Real.{Real}
use streaming_protocol_lt.Json.{Json, index}
use streaming_protocol_lt.Types.{
  SampleType, u8, s8, u16, s16, u32, s32, u64, s64, real32, real64, bitfield32, bitfield64,
  complex32, complex64, sample_array, sample_struct,
}
use streaming_protocol_lt.Signal.{SubscribedSignal}

unfoldable pub scalar_type : String → Option SampleType
scalar_type name =
    if name == "uint8"
    then some u8
    else if name == "uint16"
    then some u16
    else if name == "uint32"
    then some u32
    else if name == "uint64"
    then some u64
    else if name == "int8"
    then some s8
    else if name == "int16"
    then some s16
    else if name == "int32"
    then some s32
    else if name == "int64"
    then some s64
    else if name == "real32"
    then some real32
    else if name == "real64"
    then some real64
    else none

unfoldable pub complex_type : String → Option SampleType
complex_type name =
    if name == "complex32"
    then some complex32
    else if name == "complex64"
    then some complex64
    else none

module _ {J R : Type 0} (json : Json J R) (real : Real R) where
  open json use {find, get_text, index_or_insert}

  unfoldable pub set_bitfield_type : String → Method (SubscribedSignal J R) (Unit {0})
  set_bitfield_type name s =
      if name == "uint32"
      then (ok tt, record s { data_value_type = bitfield32 })
      else if name == "uint64"
      then (ok tt, record s { data_value_type = bitfield64 })
      else (fails, s)

  -- The two reads of the details make what is not there.
  unfoldable pub set_bitfield : J → Method (SubscribedSignal J R) (Unit {0})
  unfolding set_bitfield_type
  set_bitfield node =
      write (index json node "bitField") (λ d s. record s { datatype_details = d })
      >> (λ s.
          write (index_or_insert s.datatype_details "bits")
            (λ p s'. record s' { bits_interpretation = p.0; datatype_details = p.1 }) s)
      >> λ s.
          then_run (index_or_insert s.datatype_details "dataType", s)
            λ p s'. then_run (get_text p.0, record s' { datatype_details = p.1 }) set_bitfield_type

  unfoldable pub set_details : J → String → SampleType → Method (SubscribedSignal J R) (Unit {0})
  set_details node key type =
      write (index json node key) (λ d s. record s { datatype_details = d; data_value_type = type })

  unfoldable pub set_composite_type : J → String → Method (SubscribedSignal J R) (Unit {0})
  unfolding complex_type set_bitfield set_details
  set_composite_type node name s =
      if name == "bitField" then set_bitfield node s else elim (complex_type name) [
        | some type ↦ (ok tt, record s { data_value_type = type })
        | none ↦
            if name == "array"
            then set_details node "array" sample_array s
            else if name == "struct"
            then set_details node "struct" sample_struct s
            else (fails, s)
      ]

  -- "dynamicArray" and unknown types are refused.
  unfoldable pub set_named_type : J → String → Method (SubscribedSignal J R) (Unit {0})
  unfolding scalar_type set_composite_type
  set_named_type node name s = elim (scalar_type name) [
    | some type ↦ (ok tt, record s { data_value_type = type })
    | none ↦ set_composite_type node name s
  ]

  unfoldable pub set_data_type : J → Method (SubscribedSignal J R) (Unit {0})
  unfolding set_named_type
  set_data_type node =
      if_found (find node "dataType") λ v s. then_run (get_text v, s) (set_named_type node)

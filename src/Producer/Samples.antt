-- ===== src/Producer/Samples.antt =====
-- The data types of synchronous signals in lib/SynchronousSignal.cpp, and what the consumer makes of
-- them in lib/SubscribedSignal.cpp.
use streaming_protocol_lt.Base.{ℕ, String, ◌≡◌, ◌⊎◌, refl, inl, inr, some}
use streaming_protocol_lt.Types.{
  SampleType, u8, s8, u16, s16, u32, s32, u64, s64, real32, real64, complex32, complex64,
}
use streaming_protocol_lt.Signal.DataType.{scalar_size}
use streaming_protocol_lt.Signal.TypeName.{scalar_type, complex_type}

-- The C++ types that a synchronous signal is instantiated with.
pub data ValueType : Type 0 where
  int8 uint8 int16 uint16 int32 uint32 int64 uint64 float double : ValueType
  complex32_type complex64_type : ValueType

-- The name in `getMemberInformation`.
unfoldable pub data_type_name : ValueType → String
data_type_name int8 = "int8"
data_type_name uint8 = "uint8"
data_type_name int16 = "int16"
data_type_name uint16 = "uint16"
data_type_name int32 = "int32"
data_type_name uint32 = "uint32"
data_type_name int64 = "int64"
data_type_name uint64 = "uint64"
data_type_name float = "real32"
data_type_name double = "real64"
data_type_name complex32_type = "complex32"
data_type_name complex64_type = "complex64"

unfoldable pub sample_type : ValueType → SampleType
sample_type int8 = s8
sample_type uint8 = u8
sample_type int16 = s16
sample_type uint16 = u16
sample_type int32 = s32
sample_type uint32 = u32
sample_type int64 = s64
sample_type uint64 = u64
sample_type float = real32
sample_type double = real64
sample_type complex32_type = complex32
sample_type complex64_type = complex64

-- `sizeof`
unfoldable pub size_of_type : ValueType → ℕ
size_of_type int8 = 1
size_of_type uint8 = 1
size_of_type int16 = 2
size_of_type uint16 = 2
size_of_type int32 = 4
size_of_type uint32 = 4
size_of_type int64 = 8
size_of_type uint64 = 8
size_of_type float = 4
size_of_type double = 8
size_of_type complex32_type = 8
size_of_type complex64_type = 16

-- The consumer reads from the name that the producer writes for a type the sample type that the
-- producer means and the size that its values have.
pub scalar_size-data_type_name :
    (t : ValueType)
    → (scalar_size (data_type_name t) ≡ some (size_of_type t))
      × ((scalar_type (data_type_name t) ≡ some (sample_type t))
          ⊎ (complex_type (data_type_name t) ≡ some (sample_type t)))
unfolding scalar_size scalar_type complex_type data_type_name sample_type size_of_type
scalar_size-data_type_name int8 = (refl, inl refl)
scalar_size-data_type_name uint8 = (refl, inl refl)
scalar_size-data_type_name int16 = (refl, inl refl)
scalar_size-data_type_name uint16 = (refl, inl refl)
scalar_size-data_type_name int32 = (refl, inl refl)
scalar_size-data_type_name uint32 = (refl, inl refl)
scalar_size-data_type_name int64 = (refl, inl refl)
scalar_size-data_type_name uint64 = (refl, inl refl)
scalar_size-data_type_name float = (refl, inl refl)
scalar_size-data_type_name double = (refl, inl refl)
scalar_size-data_type_name complex32_type = (refl, inr refl)
scalar_size-data_type_name complex64_type = (refl, inr refl)

-- ===== src/Producer/Tables.antt =====
-- The data types of asynchronous and constant signals in lib/AsynchronousSignal.cpp and
-- lib/ConstantSignal.cpp, and what the consumer makes of them.
use streaming_protocol_lt.Base.{
  ℕ, String, ◌≡◌, ◌⊎◌, refl, inl, inr, arith, subst, Option, none, some,
}
use streaming_protocol_lt.Types.{
  SampleType, u8, s8, u16, s16, u32, s32, u64, s64, real32, real64, complex32, complex64,
}
use streaming_protocol_lt.Signal.DataType.{scalar_size}
use streaming_protocol_lt.Signal.TypeName.{scalar_type, complex_type}
use streaming_protocol_lt.Producer.Samples.{
  ValueType, int8, uint8, int16, uint16, int32, uint32, int64, uint64, float, double,
  complex32_type, complex64_type, size_of_type,
}

unfoldable pub asynchronous_type_name : ValueType → String
asynchronous_type_name int8 = "int8"
asynchronous_type_name uint8 = "uint8"
asynchronous_type_name int16 = "int16"
asynchronous_type_name uint16 = "uint16"
asynchronous_type_name int32 = "int32"
asynchronous_type_name uint32 = "uint32"
asynchronous_type_name int64 = "int64"
asynchronous_type_name uint64 = "uint64"
asynchronous_type_name float = "real32"
asynchronous_type_name double = "real64"
asynchronous_type_name complex32_type = "complex32"
asynchronous_type_name complex64_type = "complex64"

unfoldable pub asynchronous_sample_type : ValueType → SampleType
asynchronous_sample_type int8 = s8
asynchronous_sample_type uint8 = u8
asynchronous_sample_type int16 = s16
asynchronous_sample_type uint16 = u16
asynchronous_sample_type int32 = s32
asynchronous_sample_type uint32 = u32
asynchronous_sample_type int64 = s64
asynchronous_sample_type uint64 = u64
asynchronous_sample_type float = real32
asynchronous_sample_type double = real64
asynchronous_sample_type complex32_type = complex32
asynchronous_sample_type complex64_type = complex64

-- There are no constant signals of complex numbers.
unfoldable pub constant_type_name : ValueType → Option String
constant_type_name int8 = some "int8"
constant_type_name uint8 = some "uint8"
constant_type_name int16 = some "int16"
constant_type_name uint16 = some "uint16"
constant_type_name int32 = some "int32"
constant_type_name uint32 = some "uint32"
constant_type_name int64 = some "int64"
constant_type_name uint64 = some "uint64"
constant_type_name float = some "real32"
constant_type_name double = some "real64"
constant_type_name complex32_type = none
constant_type_name complex64_type = none

unfoldable pub constant_sample_type : ValueType → Option SampleType
constant_sample_type int8 = some s8
constant_sample_type uint8 = some u8
constant_sample_type int16 = some s16
constant_sample_type uint16 = some u16
constant_sample_type int32 = some s32
constant_sample_type uint32 = some u32
constant_sample_type int64 = some s64
constant_sample_type uint64 = some u64
constant_sample_type float = some real32
constant_sample_type double = some real64
constant_sample_type complex32_type = none
constant_sample_type complex64_type = none

-- The consumer reads from the name that an asynchronous signal writes for a type the sample type that
-- the producer means and the size that its values have.
pub scalar_size-asynchronous_type_name :
    (t : ValueType)
    → (scalar_size (asynchronous_type_name t) ≡ some (size_of_type t))
      × ((scalar_type (asynchronous_type_name t) ≡ some (asynchronous_sample_type t))
          ⊎ (complex_type (asynchronous_type_name t) ≡ some (asynchronous_sample_type t)))
unfolding scalar_size scalar_type complex_type asynchronous_type_name asynchronous_sample_type
    size_of_type
scalar_size-asynchronous_type_name int8 = (refl, inl refl)
scalar_size-asynchronous_type_name uint8 = (refl, inl refl)
scalar_size-asynchronous_type_name int16 = (refl, inl refl)
scalar_size-asynchronous_type_name uint16 = (refl, inl refl)
scalar_size-asynchronous_type_name int32 = (refl, inl refl)
scalar_size-asynchronous_type_name uint32 = (refl, inl refl)
scalar_size-asynchronous_type_name int64 = (refl, inl refl)
scalar_size-asynchronous_type_name uint64 = (refl, inl refl)
scalar_size-asynchronous_type_name float = (refl, inl refl)
scalar_size-asynchronous_type_name double = (refl, inl refl)
scalar_size-asynchronous_type_name complex32_type = (refl, inr refl)
scalar_size-asynchronous_type_name complex64_type = (refl, inr refl)

-- What holds of a name holds of the name that an option has.
named :
    (size : ℕ) (type : Option SampleType) (n name : String)
    → some n ≡ some name
    → (scalar_size n ≡ some size) × (scalar_type n ≡ type)
    → (scalar_size name ≡ some size) × (scalar_type name ≡ type)
named size type n name e h =
    subst (λ m. (scalar_size m ≡ some size) × (scalar_type m ≡ type)) (ground (arith, e)) h

-- The consumer reads from the name that a constant signal writes for a type, where it has one, the
-- sample type that the producer means and the size that its values have.
pub scalar_size-constant_type_name :
    (t : ValueType) (name : String)
    → constant_type_name t ≡ some name
    → (scalar_size name ≡ some (size_of_type t)) × (scalar_type name ≡ constant_sample_type t)
unfolding scalar_size scalar_type constant_type_name constant_sample_type size_of_type
scalar_size-constant_type_name int8 name e =
    named (size_of_type int8) (constant_sample_type int8) "int8" name e (refl, refl)
scalar_size-constant_type_name uint8 name e =
    named (size_of_type uint8) (constant_sample_type uint8) "uint8" name e (refl, refl)
scalar_size-constant_type_name int16 name e =
    named (size_of_type int16) (constant_sample_type int16) "int16" name e (refl, refl)
scalar_size-constant_type_name uint16 name e =
    named (size_of_type uint16) (constant_sample_type uint16) "uint16" name e (refl, refl)
scalar_size-constant_type_name int32 name e =
    named (size_of_type int32) (constant_sample_type int32) "int32" name e (refl, refl)
scalar_size-constant_type_name uint32 name e =
    named (size_of_type uint32) (constant_sample_type uint32) "uint32" name e (refl, refl)
scalar_size-constant_type_name int64 name e =
    named (size_of_type int64) (constant_sample_type int64) "int64" name e (refl, refl)
scalar_size-constant_type_name uint64 name e =
    named (size_of_type uint64) (constant_sample_type uint64) "uint64" name e (refl, refl)
scalar_size-constant_type_name float name e =
    named (size_of_type float) (constant_sample_type float) "real32" name e (refl, refl)
scalar_size-constant_type_name double name e =
    named (size_of_type double) (constant_sample_type double) "real64" name e (refl, refl)
scalar_size-constant_type_name complex32_type name e = ground (arith, e)
scalar_size-constant_type_name complex64_type name e = ground (arith, e)

-- ===== src/Producer/Converted.antt =====
-- What `interpretValuesAsDouble` makes of the values that a synchronous signal of each C++ type packs.
use streaming_protocol_lt.Base.{
  ℕ, ◌+◌, ◌-◌, ◌^◌, ◌≡◌, refl, List, [], map, length, ltb, if◌then◌else◌, ap, none,
}
use streaming_protocol_lt.Base.Int.{ℤ, pos, negsuc}
use streaming_protocol_lt.Base.Words.Laws.{AllBelow}
use streaming_protocol_lt.Types.{explicit}
use streaming_protocol_lt.Signal.{SubscribedSignal}
use streaming_protocol_lt.Signal.Doubles.{
  Casts, packed, reading, interpret_values_as_double, interpret_values-packed,
}
use streaming_protocol_lt.Producer.Samples.{
  ValueType, int8, uint8, int16, uint16, int32, uint32, int64, uint64, float, double,
  complex32_type, complex64_type, sample_type, size_of_type,
}

-- Two's complement, by the number that is the first to stand for a negative one.
abbrev twos_complement : ℕ → ℕ → ℤ
twos_complement half n = if ltb n half then pos n else negsuc (half + half - n - 1)

module _ {R : Type 0} (c : Casts R) where
  -- The doubles for the bits of values of a type: uint64 values are taken as signed ones, and complex
  -- values are not converted.
  unfoldable pub doubles : ValueType → List ℕ → ℕ × List R
  doubles int8 ns = (length ns, map (λ n. c.from_integer (twos_complement (2 ^ 7) n)) ns)
  doubles uint8 ns = (length ns, map (λ n. c.from_integer (pos n)) ns)
  doubles int16 ns = (length ns, map (λ n. c.from_integer (twos_complement (2 ^ 15) n)) ns)
  doubles uint16 ns = (length ns, map (λ n. c.from_integer (pos n)) ns)
  doubles int32 ns = (length ns, map (λ n. c.from_integer (twos_complement (2 ^ 31) n)) ns)
  doubles uint32 ns = (length ns, map (λ n. c.from_integer (pos n)) ns)
  doubles int64 ns = (length ns, map (λ n. c.from_integer (twos_complement (2 ^ 63) n)) ns)
  doubles uint64 ns = (length ns, map (λ n. c.from_integer (twos_complement (2 ^ 63) n)) ns)
  doubles float ns = (length ns, map c.from_float ns)
  doubles double ns = (length ns, map c.from_double ns)
  doubles complex32_type ns = (0, [])
  doubles complex64_type ns = (0, [])

module _ {J R : Type 0} (c : Casts R) where
  unconverted :
      (s : SubscribedSignal J R) (bytes : List ℕ) (count : ℕ)
      → reading c s.data_value_type ≡ none
      → interpret_values_as_double c s bytes count ≡ (0, [])
  unfolding interpret_values_as_double
  unconverted s bytes count e = rw e refl

  -- The packed values of each C++ type come out of a signal of its sample type as the doubles for their
  -- bits, in order, if the rule of the signal is explicit and the values fit their size.
  pub interpret_values-sample_type :
      (type : ValueType) (s : SubscribedSignal J R) (ns : List ℕ)
      → s.data_value_type ≡ sample_type type
      → s.rule_type ≡ explicit
      → AllBelow (256 ^ size_of_type type) ns
      → interpret_values_as_double c s (packed (size_of_type type) ns) (length ns)
        ≡ doubles c type ns
  unfolding sample_type size_of_type doubles reading
  interpret_values-sample_type int8 s ns t r h =
      interpret_values-packed c s 1 _ ns (ap (reading c) t) r h
  interpret_values-sample_type uint8 s ns t r h =
      interpret_values-packed c s 1 _ ns (ap (reading c) t) r h
  interpret_values-sample_type int16 s ns t r h =
      interpret_values-packed c s 2 _ ns (ap (reading c) t) r h
  interpret_values-sample_type uint16 s ns t r h =
      interpret_values-packed c s 2 _ ns (ap (reading c) t) r h
  interpret_values-sample_type int32 s ns t r h =
      interpret_values-packed c s 4 _ ns (ap (reading c) t) r h
  interpret_values-sample_type uint32 s ns t r h =
      interpret_values-packed c s 4 _ ns (ap (reading c) t) r h
  interpret_values-sample_type int64 s ns t r h =
      interpret_values-packed c s 8 _ ns (ap (reading c) t) r h
  interpret_values-sample_type uint64 s ns t r h =
      interpret_values-packed c s 8 _ ns (ap (reading c) t) r h
  interpret_values-sample_type float s ns t r h =
      interpret_values-packed c s 4 _ ns (ap (reading c) t) r h
  interpret_values-sample_type double s ns t r h =
      interpret_values-packed c s 8 _ ns (ap (reading c) t) r h
  interpret_values-sample_type complex32_type s ns t r h = unconverted s _ _ (ap (reading c) t)
  interpret_values-sample_type complex64_type s ns t r h = unconverted s _ _ (ap (reading c) t)

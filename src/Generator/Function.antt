-- ===== src/Generator/Function.antt =====
-- tool/SignalGenerator/function.h and the enumeration of tool/SignalGenerator/defines.h: the functions
-- that the generated signals follow. A value of one of the value types is the number whose bytes it
-- has. The computation with doubles and with values of these types is a parameter.
use streaming_protocol_lt.Base.{ℕ, Bool, if◌then◌else◌}
use streaming_protocol_lt.Real.{Real}
use streaming_protocol_lt.Types.{Range, PostScaling}
use streaming_protocol_lt.Producer.Samples.{ValueType, int32, int64}

pub data FunctionType : Type 0 where
  function_type_constant function_type_sine function_type_rectangle : FunctionType
  function_type_sawtooth function_type_impulse : FunctionType

-- What the program computes with beyond the operations of `Real`.
pub record Arithmetic (R : Type 0) : Type 0 where
  pub add : R → R → R
  pub mul : R → R → R
  pub div : R → R → R
  pub ge : R → R → Bool
  pub sine : R → R
  -- The part behind the point that modf gives.
  pub fraction : R → R
  pub two_pi : R
  -- The seconds of a duration in nanoseconds.
  pub seconds : ℕ → R
  pub from_nat : ℕ → R
  -- Conversions to uint64_t, and from and to the value types.
  pub to_uint64 : R → ℕ
  pub to_value : ValueType → R → ℕ
  pub round_to_value : ValueType → R → ℕ
  pub from_value : ValueType → ℕ → R
  -- Addition, subtraction and multiplication of the value types.
  pub plus : ValueType → ℕ → ℕ → ℕ
  pub minus : ValueType → ℕ → ℕ → ℕ
  pub times : ValueType → ℕ → ℕ → ℕ

-- The value type is the parameter of the template.
pub record FunctionParameters (R : Type 0) : Type 0 where
  pub value_type : ValueType
  pub function_type : FunctionType
  pub amplitude : ℕ
  pub offset : ℕ
  pub frequency : R
  pub duty_cycle : R
  pub range : Range R
  pub post_scaling : PostScaling R

module _ {R : Type 0} (real : Real R) (arithmetic : Arithmetic R) where
  open arithmetic use {add, mul, sine, fraction, two_pi, to_value, round_to_value, from_value}
  open arithmetic use {plus, minus, times}

  -- The member that the constructor computes.
  unfoldable pub ramp_slope : FunctionParameters R → R
  ramp_slope p = mul (from_value p.value_type p.amplitude) p.frequency

  -- The integer types have a specialisation, which rounds.
  abbrev ramp : ValueType → R → ℕ → ℕ
  ramp int32 value offset = plus int32 (round_to_value int32 value) offset
  ramp int64 value offset = plus int64 (round_to_value int64 value) offset
  ramp t value offset = to_value t (add value (from_value t offset))

  unfoldable pub calculate_saw_tooth : FunctionParameters R → R → ℕ
  unfolding ramp_slope
  calculate_saw_tooth p period_time = ramp p.value_type (mul period_time (ramp_slope p)) p.offset

  abbrev value_of : FunctionType → FunctionParameters R → R → ℕ
  unfolding calculate_saw_tooth
  value_of function_type_constant p period_time = p.offset
  value_of function_type_sine p period_time =
      plus p.value_type
        (times p.value_type
          (to_value p.value_type (sine (mul (mul two_pi p.frequency) period_time))) p.amplitude)
        p.offset
  value_of function_type_rectangle p period_time =
      if real.lt (fraction (mul period_time p.frequency)) p.duty_cycle
      then plus p.value_type p.offset p.amplitude
      else minus p.value_type p.offset p.amplitude
  value_of function_type_sawtooth p period_time = calculate_saw_tooth p period_time
  value_of function_type_impulse p period_time =
      if real.eq period_time real.zero then plus p.value_type p.amplitude p.offset else p.offset

  -- The value at a point of time within one period.
  unfoldable pub calculate : FunctionParameters R → R → ℕ
  unfolding calculate_saw_tooth
  calculate p period_time = value_of p.function_type p period_time

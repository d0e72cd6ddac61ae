-- ===== src/Real.antt =====
-- The type `double`, a parameter of the model: the operations that the program applies to it.
use streaming_protocol_lt.Base.{Bool}

pub record Real (R : Type 0) : Type 0 where
  pub zero : R
  pub one : R
  -- std::numeric_limits<double>::lowest() and max()
  pub lowest : R
  pub max : R
  pub epsilon : R
  -- The comparison `==`.
  pub eq : R → R → Bool
  pub lt : R → R → Bool
  pub sub : R → R → R
  pub abs : R → R

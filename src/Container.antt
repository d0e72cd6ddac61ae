-- ===== src/Container.antt =====
-- include/streaming_protocol/SignalContainer.hpp, include/streaming_protocol/Table.hpp and
-- lib/SignalContainer.cpp: all subscribed signals of a consumer, and the tables that join a time
-- signal with its data signals. The calls of the registered callbacks are recorded in order; the
-- callbacks change nothing here.
pub mod Maps
pub mod Callbacks
pub mod Meta
pub mod Measured
pub mod Members
pub mod Invariant
pub mod Safety
pub mod Touched
pub mod Data
use streaming_protocol_lt.Base.{ℕ, String, Bool, List, [], Option}
use streaming_protocol_lt.Signal.{SubscribedSignal}
use streaming_protocol_lt.Signal.Measured.{DataEvent}

-- 0 means no time signal.
pub record Table : Type 0 where
  pub time_signal_number : ℕ
  pub data_signal_numbers : List ℕ

pub data Call (J : Type 0) : Type 0 where
  data_call : DataEvent → Call J
  meta_call : ℕ → String → J → Call J

-- A pointer that is null is `none`: `operator[]` of the map makes such entries.
pub record SignalContainer (J R : Type 0) : Type 0 where
  pub signals : List (ℕ × Option (SubscribedSignal J R))
  pub tables : List (String × Table)
  pub calls : List (Call J)

abbrev pub new_container : {J R : Type 0} → SignalContainer J R
new_container = record { signals = []; tables = []; calls = [] }

-- ===== src/Generator.antt =====
-- tool/SignalGenerator: the signal generator, which configures synthetic signals and streams them
-- through a session of the library.
pub mod Function
pub mod Signals
pub mod Samples
pub mod Produced
pub mod Schedule
pub mod Factors
pub mod Factored
pub mod Durations
pub mod State
pub mod Configure
pub mod Holds
pub mod Configured
pub mod Run
pub mod Start
pub mod Ends
pub mod Shutdown

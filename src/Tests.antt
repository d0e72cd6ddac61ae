-- ===== src/Tests.antt =====
-- Concrete runs: values of a JSON type and of a number type that fill the interfaces, test data, and
-- examples of the theorems that have hypotheses.
pub mod Items
pub mod Values
mod Data
mod Examples
mod Runs
mod Sessions
mod Commands
mod Descriptions
mod Generating
mod Clients

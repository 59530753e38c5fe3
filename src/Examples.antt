-- ===== src/Examples.antt =====
-- Tests of the model, and the properties at concrete inputs.
pub mod Data
mod Balancing
mod Breaking
mod Checking
mod Serving
mod Routing
pub mod Proxying
mod Administering
mod Handling
mod Tunnelling
mod Starting

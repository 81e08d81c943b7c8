-- ===== src/Tests.antt =====
-- Runs of the modelled code on concrete inputs, and uses of the theorems at them.
pub mod Fixtures
mod Prices
mod Sittings
mod Syncs
mod Sales
mod Live
mod Access
mod Machines

-- ===== src/Programs.antt =====
-- The programs under examples/ and adapters/hubmod/examples/, as clients of the library.
pub mod Started
mod Greeter
mod Hooks
mod Trials
pub mod Site
pub mod Orders

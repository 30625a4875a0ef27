-- ===== src/Manager.antt =====
-- manager.go: a set of named modules with dependencies, started and stopped in layers.
pub mod Defs
pub mod Plan
pub mod Counting
pub mod Ready
pub mod Rounds
pub mod Known
pub mod Layers
pub mod Cycles
pub mod Fewest
mod Examples
mod Trials
mod Schedules
pub mod Order
pub mod Registering
pub mod Modules
pub mod Teardown
pub mod Calling
pub mod Startup
pub mod StopLayers
pub mod PlannedUnwinding
pub mod Unwinding
pub mod StopLayer
pub mod Stopping
pub mod Backing
pub mod StartCalls
pub mod StartLayer
pub mod Starting
pub mod Launching
pub mod Soundness
pub mod Running
pub mod Keeping
pub mod Climbing
pub mod Histories
pub mod Invariance
pub mod Reaching
pub mod RunLaws
pub mod TimingOut
pub mod Rising
pub mod Risen
pub mod Falling
pub mod Callers
pub mod Exclusion
pub mod Probing

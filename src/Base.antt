-- ===== src/Base.antt =====
-- base.go, hook.go, options.go and module.go: a module, its hooks, and its lifecycle.
pub mod Defs
pub mod Environment
pub mod Lifecycle
pub mod Recording
pub mod Following
pub mod Lasting
pub mod Growing
pub mod Passing
pub mod Phases
pub mod Cleanups
pub mod Outcomes
pub mod Starting
pub mod Stopping
pub mod Hooks
pub mod Options
pub mod Callers
pub mod Exclusion
pub mod Alone
pub mod Steps
pub mod Alike
pub mod Willing
pub mod Balance
mod Trials
mod Schedules
mod Examples

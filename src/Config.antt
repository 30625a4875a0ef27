-- ===== src/Config.antt =====
-- config.go. A module's configuration is read through its two accessors only.
use appmod.Common.{Name, bytes}

-- `Config`, and what any `AppModuleConfig` reports.
pub record Config : Type 0 where
  pub name : Name
  pub version : Name

unfoldable pub default_config : Config
default_config = record { name = bytes "App Module"; version = bytes "v0.0.1" }

unfoldable pub new_config : Name → Name → Config
new_config name version = record { name = name; version = version }

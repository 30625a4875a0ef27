-- ===== src/Phase.antt =====
-- hook.go: the lifecycle phases.
use appmod.Common.{Bool, true, false, ℤ}

-- `Phase` is an int32 with four named values; `unnamed` stands for every other value.
pub data Phase : Type 0 where
  before_start after_start before_destroy after_destroy : Phase
  unnamed : ℤ → Phase

abbrev pub valid : Phase → Bool
valid before_start = true
valid after_start = true
valid before_destroy = true
valid after_destroy = true
valid (unnamed n) = false

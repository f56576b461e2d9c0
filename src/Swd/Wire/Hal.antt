-- ===== src/Swd/Wire/Hal.antt =====
-- The calls that airfrog-swd/src/protocol.rs makes of the pins and the timer, as events, and what
-- the target sees of them.
use airfrog.Prelude.{ℕ, Bool, true, false, List, [], ◌∷◌, ◌++◌, Option, none, some, if◌then◌else◌}

pub data Event : Type 0 where
  -- `swclk.set_high()` and `swclk.set_low()`
  swclk : Bool → Event
  -- `swdio.set_high()` and `swdio.set_low()`
  swdio : Bool → Event
  output_enable input_enable : Bool → Event
  -- `riscv::asm::delay`, in cycles, and `Timer::after_micros`
  delay after_micros : ℕ → Event

-- The lines as the target sees them: the clock's level, the level that SWDIO is set to, whether it
-- is driven, and for each rising clock edge so far the level driven, or `none` if it was released.
pub record View : Type 0 where
  pub clock : Bool
  pub level : Bool
  pub driven : Bool
  pub edges : List (Option Bool)

abbrev pub seen : Event → View → View
seen (Event.swclk true) v = if v.clock then v else record v {
  clock = true;
  edges = v.edges ++ (if v.driven then some v.level else none) ∷ [];
}
seen (Event.swclk false) v = record v { clock = false }
seen (Event.swdio b) v = record v { level = b }
seen (Event.output_enable b) v = record v { driven = b }
seen (Event.input_enable b) v = v
seen (Event.delay n) v = v
seen (Event.after_micros n) v = v

-- A trace has its latest event first.
abbrev pub view : List Event → View
view [] = record { clock = false; level = false; driven = false; edges = [] }
view (e ∷ es) = seen e (view es)

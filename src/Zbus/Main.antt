-- ===== src/Zbus/Main.antt =====
-- `main` of app40_zbus/src/main.c.
use zephyr_stm32h.Common.{ℕ, List, [], ◌∷◌}
use zephyr_stm32h.Startup.{Thread, Action, initialises, creates, sleeps}

-- The kernel objects of the application, all defined statically.
abbrev sensor_chan : ℕ
sensor_chan = 0

-- The threads, with the objects that their functions use.
abbrev pub_data : Thread
pub_data = record { id = 0; priority = 7; uses = sensor_chan ∷ [] }

abbrev sub_data : Thread
sub_data = record { id = 1; priority = 6; uses = sensor_chan ∷ [] }

-- What is defined statically is there before `main` starts.
abbrev pub statics : List Action
statics = initialises sensor_chan ∷ []

abbrev pub main : List Action
main = creates pub_data ∷ creates sub_data ∷ sleeps 12000 ∷ []

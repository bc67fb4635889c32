-- ===== src/MessageQueue/Main.antt =====
-- `main` of app35_mq/src/main.c.
use zephyr_stm32h.Common.{ℕ, List, [], ◌∷◌}
use zephyr_stm32h.Startup.{Thread, Action, initialises, creates, sleeps}

-- The kernel objects of the application. The first is defined statically.
abbrev sensor_msgq : ℕ
sensor_msgq = 0

abbrev cmd_msgq : ℕ
cmd_msgq = 1

-- The threads, with the objects that their functions use.
abbrev sensor_data_thread : Thread
sensor_data_thread = record { id = 0; priority = 7; uses = sensor_msgq ∷ [] }

abbrev processor_data_thread : Thread
processor_data_thread = record { id = 1; priority = 6; uses = sensor_msgq ∷ [] }

abbrev cmd_sender_data : Thread
cmd_sender_data = record { id = 2; priority = 7; uses = cmd_msgq ∷ [] }

abbrev cmd_handler_data : Thread
cmd_handler_data = record { id = 3; priority = 6; uses = cmd_msgq ∷ [] }

-- What is defined statically is there before `main` starts.
abbrev pub statics : List Action
statics = initialises sensor_msgq ∷ []

abbrev pub main : List Action
main =
    creates sensor_data_thread
    ∷ creates processor_data_thread
    ∷ sleeps 12000
    ∷ initialises cmd_msgq
    ∷ creates cmd_sender_data
    ∷ creates cmd_handler_data
    ∷ sleeps 15000
    ∷ []

-- ===== src/Events/Main.antt =====
-- `main` of app33_event/src/main.c.
use zephyr_stm32h.Common.{ℕ, List, [], ◌∷◌}
use zephyr_stm32h.Startup.{Thread, Action, initialises, creates, sleeps}

-- The kernel objects of the application.
abbrev basic_event : ℕ
basic_event = 0

abbrev all_event : ℕ
all_event = 1

-- The threads, with the objects that their functions use.
abbrev producer_data : Thread
producer_data = record { id = 0; priority = 7; uses = basic_event ∷ [] }

abbrev consumer_data : Thread
consumer_data = record { id = 1; priority = 6; uses = basic_event ∷ [] }

abbrev sensor_a_data : Thread
sensor_a_data = record { id = 2; priority = 7; uses = all_event ∷ [] }

abbrev sensor_b_data : Thread
sensor_b_data = record { id = 3; priority = 7; uses = all_event ∷ [] }

abbrev fusion_data : Thread
fusion_data = record { id = 4; priority = 6; uses = all_event ∷ [] }

abbrev pub main : List Action
main =
    initialises basic_event
    ∷ creates producer_data
    ∷ creates consumer_data
    ∷ sleeps 8000
    ∷ initialises all_event
    ∷ creates sensor_a_data
    ∷ creates sensor_b_data
    ∷ creates fusion_data
    ∷ sleeps 8000
    ∷ []

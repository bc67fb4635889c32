-- ===== src/Fifo/Main.antt =====
-- `main` of app36_fifo/src/main.c.
use zephyr_stm32h.Common.{ℕ, List, [], ◌∷◌}
use zephyr_stm32h.Startup.{Thread, Action, initialises, creates, sleeps}

-- The kernel objects of the application, all defined statically.
abbrev sensor_fifo : ℕ
sensor_fifo = 0

abbrev data_fifo : ℕ
data_fifo = 1

-- The threads, with the objects that their functions use.
abbrev sensor_data_thread : Thread
sensor_data_thread = record { id = 0; priority = 7; uses = sensor_fifo ∷ [] }

abbrev processor_data_thread : Thread
processor_data_thread = record { id = 1; priority = 6; uses = sensor_fifo ∷ [] }

abbrev producer_data_thread : Thread
producer_data_thread = record { id = 2; priority = 7; uses = data_fifo ∷ [] }

abbrev consumer_data_thread : Thread
consumer_data_thread = record { id = 3; priority = 6; uses = data_fifo ∷ [] }

-- What is defined statically is there before `main` starts.
abbrev pub statics : List Action
statics = initialises sensor_fifo ∷ initialises data_fifo ∷ []

abbrev pub main : List Action
main =
    creates sensor_data_thread
    ∷ creates processor_data_thread
    ∷ sleeps 8000
    ∷ creates producer_data_thread
    ∷ creates consumer_data_thread
    ∷ sleeps 12000
    ∷ []

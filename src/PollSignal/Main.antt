-- ===== src/PollSignal/Main.antt =====
-- `main` of app34_signal/src/main.c.
use zephyr_stm32h.Common.{ℕ, List, [], ◌∷◌}
use zephyr_stm32h.Startup.{Thread, Action, initialises, creates, sleeps}

-- The kernel objects of the application.
abbrev basic_signal : ℕ
basic_signal = 0

abbrev basic_events : ℕ
basic_events = 1

abbrev result_signal : ℕ
result_signal = 2

abbrev result_events : ℕ
result_events = 3

-- The threads, with the objects that their functions use.
abbrev sender_data : Thread
sender_data = record { id = 0; priority = 7; uses = basic_signal ∷ [] }

abbrev waiter_data : Thread
waiter_data = record { id = 1; priority = 6; uses = basic_signal ∷ basic_events ∷ [] }

abbrev commander_data : Thread
commander_data = record { id = 2; priority = 7; uses = result_signal ∷ [] }

abbrev worker_data : Thread
worker_data = record { id = 3; priority = 6; uses = result_signal ∷ result_events ∷ [] }

abbrev pub main : List Action
main =
    initialises basic_signal
    ∷ initialises basic_events
    ∷ creates sender_data
    ∷ creates waiter_data
    ∷ sleeps 8000
    ∷ initialises result_signal
    ∷ initialises result_events
    ∷ creates commander_data
    ∷ creates worker_data
    ∷ sleeps 12000
    ∷ []

-- ===== src/Mutex/Main.antt =====
-- `main` of app32_mutex/src/main.c.
use zephyr_stm32h.Common.{ℕ, List, [], ◌∷◌}
use zephyr_stm32h.Startup.{Thread, Action, initialises, creates, sleeps}

-- The kernel objects of the application.
abbrev basic_mutex : ℕ
basic_mutex = 0

abbrev resource_mutex : ℕ
resource_mutex = 1

abbrev timeout_mutex : ℕ
timeout_mutex = 2

abbrev recursive_mutex : ℕ
recursive_mutex = 3

-- The threads, with the objects that their functions use.
abbrev thread1_data : Thread
thread1_data = record { id = 0; priority = 7; uses = basic_mutex ∷ [] }

abbrev thread2_data : Thread
thread2_data = record { id = 1; priority = 6; uses = basic_mutex ∷ [] }

abbrev writer_data : Thread
writer_data = record { id = 2; priority = 7; uses = resource_mutex ∷ [] }

abbrev reader_data : Thread
reader_data = record { id = 3; priority = 6; uses = resource_mutex ∷ [] }

abbrev timeout_holder_data : Thread
timeout_holder_data = record { id = 4; priority = 7; uses = timeout_mutex ∷ [] }

abbrev timeout_waiter_data : Thread
timeout_waiter_data = record { id = 5; priority = 6; uses = timeout_mutex ∷ [] }

abbrev recursive_data : Thread
recursive_data = record { id = 6; priority = 7; uses = recursive_mutex ∷ [] }

abbrev pub main : List Action
main =
    initialises basic_mutex
    ∷ creates thread1_data
    ∷ creates thread2_data
    ∷ sleeps 6000
    ∷ initialises resource_mutex
    ∷ creates writer_data
    ∷ creates reader_data
    ∷ sleeps 6000
    ∷ initialises timeout_mutex
    ∷ creates timeout_holder_data
    ∷ creates timeout_waiter_data
    ∷ sleeps 8000
    ∷ initialises recursive_mutex
    ∷ creates recursive_data
    ∷ sleeps 10000
    ∷ []

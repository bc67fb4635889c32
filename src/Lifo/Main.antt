-- ===== src/Lifo/Main.antt =====
-- `main` of app37_lifo/src/main.c.
use zephyr_stm32h.Common.{ℕ, List, [], ◌∷◌}
use zephyr_stm32h.Startup.{Thread, Action, initialises, creates, sleeps}

-- The kernel objects of the application, all defined statically.
abbrev task_stack : ℕ
task_stack = 0

abbrev cmd_stack : ℕ
cmd_stack = 1

-- The threads, with the objects that their functions use.
abbrev push_data : Thread
push_data = record { id = 0; priority = 7; uses = task_stack ∷ [] }

abbrev pop_data : Thread
pop_data = record { id = 1; priority = 6; uses = task_stack ∷ [] }

abbrev dispatch_data : Thread
dispatch_data = record { id = 2; priority = 7; uses = cmd_stack ∷ [] }

abbrev executor_data : Thread
executor_data = record { id = 3; priority = 6; uses = cmd_stack ∷ [] }

-- What is defined statically is there before `main` starts.
abbrev pub statics : List Action
statics = initialises task_stack ∷ initialises cmd_stack ∷ []

abbrev pub main : List Action
main =
    creates push_data
    ∷ creates pop_data
    ∷ sleeps 7000
    ∷ creates dispatch_data
    ∷ creates executor_data
    ∷ sleeps 10000
    ∷ []

-- ===== src/Tasks.antt =====
-- app30_task/src/main.c: two tasks defined statically, which print and sleep.
use zephyr_stm32h.Common.{ℕ, zero, suc, List, [], ◌∷◌}
use zephyr_stm32h.Startup.{Thread, Action, creates, sleeps}

-- The tasks use no kernel objects.
abbrev task1_id : Thread
task1_id = record { id = 0; priority = 7; uses = [] }

abbrev task2_id : Thread
task2_id = record { id = 1; priority = 8; uses = [] }

-- `K_THREAD_DEFINE` creates them before `main` starts.
abbrev pub statics : List Action
statics = creates task1_id ∷ creates task2_id ∷ []

-- So many rounds of the loop that does not end.
abbrev pub main : ℕ → List Action
main zero = []
main (suc n) = sleeps 1000 ∷ main n

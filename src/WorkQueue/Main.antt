-- ===== src/WorkQueue/Main.antt =====
-- `main` of app41_work_queue/src/main.c.
use zephyr_stm32h.Common.{ℕ, List, [], ◌∷◌}
use zephyr_stm32h.Startup.{Thread, Action, initialises, creates, sleeps}

-- The kernel objects of the application. The first four are defined statically.
abbrev pub normal_work : ℕ
normal_work = 0

abbrev pub delayed_work : ℕ
delayed_work = 1

abbrev pub long_work : ℕ
long_work = 2

abbrev pub urgent_work : ℕ
urgent_work = 3

abbrev my_workq : ℕ
my_workq = 4

-- The threads, with the objects that their functions use.
abbrev submitter_data : Thread
submitter_data = record { id = 0; priority = 7; uses = normal_work ∷ delayed_work ∷ [] }

abbrev dispatcher_data : Thread
dispatcher_data = record { id = 1; priority = 7; uses = my_workq ∷ long_work ∷ urgent_work ∷ [] }

-- What is defined statically is there before `main` starts.
abbrev pub statics : List Action
statics =
    initialises normal_work
    ∷ initialises delayed_work
    ∷ initialises long_work
    ∷ initialises urgent_work
    ∷ []

abbrev pub main : List Action
main =
    creates submitter_data
    ∷ sleeps 10000
    ∷ initialises my_workq
    ∷ creates dispatcher_data
    ∷ sleeps 8000
    ∷ []

-- ===== src/Pipe/Main.antt =====
-- `main` of app39_pipe/src/main.c.
use zephyr_stm32h.Common.{ℕ, List, [], ◌∷◌}
use zephyr_stm32h.Startup.{Thread, Action, initialises, creates, sleeps}

-- The kernel objects of the application. The first is defined statically.
abbrev data_pipe : ℕ
data_pipe = 0

abbrev cmd_pipe : ℕ
cmd_pipe = 1

-- The threads, with the objects that their functions use.
abbrev writer_data : Thread
writer_data = record { id = 0; priority = 7; uses = data_pipe ∷ [] }

abbrev reader_data : Thread
reader_data = record { id = 1; priority = 6; uses = data_pipe ∷ [] }

abbrev cmd_writer_data : Thread
cmd_writer_data = record { id = 2; priority = 7; uses = cmd_pipe ∷ [] }

abbrev cmd_reader_data : Thread
cmd_reader_data = record { id = 3; priority = 6; uses = cmd_pipe ∷ [] }

-- What is defined statically is there before `main` starts.
abbrev pub statics : List Action
statics = initialises data_pipe ∷ []

abbrev pub main : List Action
main =
    creates writer_data
    ∷ creates reader_data
    ∷ sleeps 8000
    ∷ initialises cmd_pipe
    ∷ creates cmd_writer_data
    ∷ creates cmd_reader_data
    ∷ sleeps 12000
    ∷ []

-- ===== src/Mailbox/Main.antt =====
-- `main` of app38_mailbox/src/main.c.
use zephyr_stm32h.Common.{ℕ, List, [], ◌∷◌}
use zephyr_stm32h.Startup.{Thread, Action, initialises, creates, sleeps}

-- The kernel objects of the application. The first two are defined statically.
abbrev sync_mbox : ℕ
sync_mbox = 0

abbrev async_mbox : ℕ
async_mbox = 1

abbrev done_sem : ℕ
done_sem = 2

-- The threads, with the objects that their functions use.
abbrev sync_sender_data : Thread
sync_sender_data = record { id = 0; priority = 7; uses = sync_mbox ∷ [] }

abbrev sync_receiver_data : Thread
sync_receiver_data = record { id = 1; priority = 6; uses = sync_mbox ∷ [] }

abbrev async_sender_data : Thread
async_sender_data = record { id = 2; priority = 7; uses = async_mbox ∷ done_sem ∷ [] }

abbrev async_receiver_data : Thread
async_receiver_data = record { id = 3; priority = 6; uses = async_mbox ∷ done_sem ∷ [] }

-- What is defined statically is there before `main` starts.
abbrev pub statics : List Action
statics = initialises sync_mbox ∷ initialises async_mbox ∷ []

abbrev pub main : List Action
main =
    creates sync_sender_data
    ∷ creates sync_receiver_data
    ∷ sleeps 10000
    ∷ initialises done_sem
    ∷ creates async_sender_data
    ∷ creates async_receiver_data
    ∷ sleeps 12000
    ∷ []

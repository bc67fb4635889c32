-- ===== src/Startup/Applications.antt =====
-- The applications with threads, each with what it defines statically and its `main`.
use zephyr_stm32h.Common.{ℕ, zero, suc, ◌≡◌, refl, true, List, [], ◌++◌}
use zephyr_stm32h.Events.Main as Events
use zephyr_stm32h.Fifo.Main as Fifo
use zephyr_stm32h.Lifo.Main as Lifo
use zephyr_stm32h.Mailbox.Main as Mailbox
use zephyr_stm32h.MessageQueue.Main as MessageQueue
use zephyr_stm32h.Mutex.Main as Mutex
use zephyr_stm32h.Pipe.Main as Pipe
use zephyr_stm32h.PollSignal.Main as PollSignal
use zephyr_stm32h.Startup.Order.{in_order, in_order-Proper}
use zephyr_stm32h.Startup.{Action, Event, Kernel, KernelRun, boot, Proper}
use zephyr_stm32h.Tasks as Tasks
use zephyr_stm32h.WorkQueue.Main as WorkQueue
use zephyr_stm32h.Zbus.Main as Zbus

-- The main loop of app30_task is run for some rounds.
pub data Application : Type 0 where
  tasks : ℕ → Application
  mutex event signal message_queue fifo lifo mailbox pipe zbus work_queue : Application

-- What the application does from the start: its static definitions, and then `main`.
abbrev pub program : Application → List Action
program (tasks rounds) = Tasks.statics ++ Tasks.main rounds
program mutex = Mutex.main
program event = Events.main
program signal = PollSignal.main
program message_queue = MessageQueue.statics ++ MessageQueue.main
program fifo = Fifo.statics ++ Fifo.main
program lifo = Lifo.statics ++ Lifo.main
program mailbox = Mailbox.statics ++ Mailbox.main
program pipe = Pipe.statics ++ Pipe.main
program zbus = Zbus.statics ++ Zbus.main
program work_queue = WorkQueue.statics ++ WorkQueue.main

-- Rounds of sleep change nothing.
tasks_in_order : (rounds : ℕ) (log : List Event) → in_order log (Tasks.main rounds) ≡ true
tasks_in_order zero log = refl
tasks_in_order (suc n) log = tasks_in_order n log

program_in_order : (a : Application) → in_order [] (program a) ≡ true
program_in_order (tasks rounds) = tasks_in_order rounds _
program_in_order mutex = refl
program_in_order event = refl
program_in_order signal = refl
program_in_order message_queue = refl
program_in_order fifo = refl
program_in_order lifo = refl
program_in_order mailbox = refl
program_in_order pipe = refl
program_in_order zbus = refl
program_in_order work_queue = refl

-- In each application with threads, whatever the interleaving of `main` with the threads it has created, the
-- log is proper: no thread uses a kernel object that is not initialised, or before it is created, no object
-- is initialised twice or after a use, and no thread is created twice.
pub threads_find_objects_ready :
    (a : Application) (s : Kernel) → KernelRun (boot (program a)) s → Proper s.log
threads_find_objects_ready a s r = in_order-Proper (program a) s (program_in_order a) r
